-- ===== src/Protocol/Credentials/Parsing.antt =====
-- `parse_register_request` and `parse_login_request` on any payload.
use tcp_chat_server.Prelude.{
  ℕ, inl, inr, ◌≡◌, refl, ap, ◌∙◌, sym, Option, none, some, List, [], ◌∷◌, Bool, true, false, ◌||◌,
  ◌==◌, length, if◌then◌else◌, All, pos, arith, ltb,
}
use tcp_chat_server.Protocol.Types.{Message, Credentials, max_username_size, max_password_size}
use tcp_chat_server.Protocol.Tlv.{finished, walk, next, stop}
use tcp_chat_server.Protocol.Tlv.Stream.{Tlv, encode, walk-encode, Walk-cases, walk-finished}
use tcp_chat_server.Protocol.Tlv.Values.{
  last_value, value_or, is_given, put_all, scan-put_all, scan_finished,
}
use tcp_chat_server.Protocol.Message.{payload_bytes}
use tcp_chat_server.Protocol.Credentials.{
  CredentialsScan, credentials_switch, credentials_result, credentials_start,
  parse_register_request,
}

-- A username and a password are short enough; any other TLV may have any value.
abbrev pub within_limits : Tlv → Bool
within_limits t =
    if t.tag == 0
    then (if ltb max_username_size (length t.value) then false else true)
    else if t.tag == 1
    then (if ltb max_password_size (length t.value) then false else true)
    else true

abbrev pub AllWithin : List Tlv → Type 0
AllWithin = All λ t. within_limits t ≡ true

-- What the `switch` stores of a TLV within the limits.
abbrev put : Tlv → CredentialsScan → CredentialsScan
put t s = record {
  credentials = record {
    username = if t.tag == 0 then t.value else s.credentials.username;
    password = if t.tag == 1 then t.value else s.credentials.password;
  };
  has_username = t.tag == 0 || s.has_username;
  has_password = t.tag == 1 || s.has_password;
}

switches :
    (t : Tlv) (s : CredentialsScan)
    → credentials_switch t.tag t.value s ≡ (if within_limits t then next (put t s) else stop s)
unfolding credentials_switch
switches t s = ground arith

-- The fields after a list of TLVs: the last value of each tag counts.
abbrev fields : List Tlv → CredentialsScan → CredentialsScan
fields ts s = record {
  credentials = record {
    username = value_or (last_value 0 ts) s.credentials.username;
    password = value_or (last_value 1 ts) s.credentials.password;
  };
  has_username = is_given (last_value 0 ts) || s.has_username;
  has_password = is_given (last_value 1 ts) || s.has_password;
}

put_all-fields : (ts : List Tlv) (s : CredentialsScan) → put_all put ts s ≡ fields ts s
put_all-fields [] s = refl
put_all-fields (t ∷ ts) s = put_all-fields ts (put t s) ∙ ground arith

-- A loop over a payload that is a list of TLVs within the limits ends with their fields.
credentials_walk :
    (payload : List ℕ) (ts : List Tlv) (c : Credentials)
    → payload ≡ encode ts
    → AllWithin ts
    → walk (λ s. s) credentials_switch payload (credentials_start c)
      ≡ finished (fields ts (credentials_start c))
credentials_walk payload ts c e w =
    rw e (walk-encode (λ s. s) credentials_switch ts (credentials_start c))
    ∙ scan-put_all credentials_switch within_limits put (λ s. s) switches ts (credentials_start c) w
    ∙ ap finished (put_all-fields ts (credentials_start c))

-- The parser returns 0 only if both tags were there.
both_given :
    (u p : Option (List ℕ)) (c c' : Credentials)
    → credentials_result (
        finished (record {
          credentials = record {
            username = value_or u c.username;
            password = value_or p c.password;
          };
          has_username = is_given u || false;
          has_password = is_given p || false;
        }))
      ≡ (pos 0, c')
    → (u ≡ some c'.username) × (p ≡ some c'.password)
both_given (some u) (some p) c c' e = (cc, cc)
both_given (some u) none c c' e = ground arith
both_given none p c c' e = ground arith

-- A request that parses is a list of TLVs within the limits, and the credentials are the last
-- values of their tags.
pub parse_register_request_sound :
    (msg : Message) (c c' : Credentials)
    → parse_register_request msg c ≡ (pos 0, c')
    → (ts : List Tlv) × (payload_bytes msg ≡ encode ts)
      × AllWithin ts
      × (last_value 0 ts ≡ some c'.username)
      × (last_value 1 ts ≡ some c'.password)
unfolding parse_register_request
parse_register_request_sound msg c c' e =
    elim (Walk-cases (walk (λ s. s) credentials_switch (payload_bytes msg) (credentials_start c))) [
      | inr (s, h) ↦ let refused = rw h at e in ground arith
      | inl (s, h) ↦
          let (ts, encoded, scanned) = walk-finished _ _ (payload_bytes msg) _ s h in
          let (w, same) =
            scan_finished credentials_switch within_limits put (λ s. s) switches ts _ s scanned in
          let stored = same ∙ put_all-fields ts (credentials_start c) in
          let (u, p) =
            both_given (last_value 0 ts) (last_value 1 ts) c c'
              (ap (λ x. credentials_result (finished x)) (sym stored) ∙ rw h at e) in
          (ts, encoded, w, u, p)
    ]

-- A list of TLVs within the limits parses if it has both tags; their last values count.
pub parse_register_request_complete :
    (msg : Message) (c : Credentials) (ts : List Tlv) (u p : List ℕ)
    → payload_bytes msg ≡ encode ts
    → AllWithin ts
    → last_value 0 ts ≡ some u
    → last_value 1 ts ≡ some p
    → parse_register_request msg c ≡ (pos 0, record { username = u; password = p })
unfolding parse_register_request
parse_register_request_complete msg c ts u p e w hu hp =
    ap credentials_result (credentials_walk (payload_bytes msg) ts c e w) ∙ ground arith
