-- ===== src/Protocol/Accounts/Faults.antt =====
-- The return values of the two response parsers, and the responses on which their `memcpy` into
-- `user.user_id` leaves its bounds.
use tcp_chat_server.Prelude.{
  ℕ, ◌<◌, ◌≡◌, ◌⊎◌, inl, inr, refl, ap, ◌∙◌, List, ◌∷◌, ◌++◌, length, ℤ, pos, negsuc, Bool-cases,
  ◌&&◌, lt→ltb,
}
use tcp_chat_server.Protocol.Types.{Message, User}
use tcp_chat_server.Protocol.Tlv.{walk, Walk, finished, stopped}
use tcp_chat_server.Protocol.Tlv.Stream.{Tlv, walk_first_stops}
use tcp_chat_server.Protocol.Message.{payload_bytes}
use tcp_chat_server.Protocol.Accounts.{
  UserScan, Stop, malformed, overrun, user_switch, returns, overruns, user_result, user_start,
  parse_register_response, parse_login_response,
}

result_codes :
    (missing rc : ℤ) (w : Walk Stop UserScan) (user : User)
    → user_result missing w ≡ returns rc user
    → (rc ≡ pos 0) ⊎ (rc ≡ pos 1) ⊎ (rc ≡ missing)
result_codes missing rc (stopped (malformed s)) user e = inr (inl cc)
result_codes missing rc (stopped overrun) user e = cc
result_codes missing rc (finished s) user e = elim (Bool-cases (s.has_id && s.has_username)) [
  | inl both ↦ let given = rw both at e in inl cc
  | inr lacks ↦ let given = rw lacks at e in inr (inr cc)
]

-- `parse_login_response` never returns -1: it returns 0, or RESP_ERROR_MALFORMED on any malformed
-- payload and on a missing tag.
pub parse_login_response-ne-minus_one :
    (response : Message) (user user' : User) (rc : ℤ)
    → parse_login_response response user ≡ returns rc user'
    → (rc ≡ pos 0) ⊎ (rc ≡ pos 1)
unfolding parse_login_response
parse_login_response-ne-minus_one response user user' rc e =
    elim (result_codes (pos 1) rc _ user' e) [
      | inl zero ↦ inl zero
      | inr (inl refused) ↦ inr refused
      | inr (inr missing) ↦ inr missing
    ]

-- A response whose first TLV is a user id of more than four bytes makes both parsers write past
-- the end of `user.user_id`, whatever follows in the payload.
pub user_id_overrun :
    (response : Message) (user : User) (value rest : List ℕ)
    → 4 < length value
    → payload_bytes response ≡ 6 ∷ length value ∷ (value ++ rest)
    → (parse_register_response response user ≡ overruns)
      × (parse_login_response response user ≡ overruns)
unfolding parse_register_response parse_login_response
user_id_overrun response user value rest long e =
    let tlv : Tlv = record { tag = 6; value = value } in
    let stops : walk malformed user_switch (payload_bytes response) (user_start user)
        ≡ stopped overrun =
      ap (λ p. walk malformed user_switch p (user_start user)) e
      ∙ walk_first_stops malformed user_switch tlv rest (user_start user) overrun
          (rw (lt→ltb 4 (length value) long, user_switch) refl) in
    (ap (user_result (negsuc 0)) stops, ap (user_result (pos 1)) stops)
