-- ===== src/Protocol/Codes.antt =====
-- The texts of the response codes: `get_response_message` of src/protocol.cpp.
pub mod Returned
use Prim.Native.Char.{code}
use Prim.Native.String.{String}
use tcp_chat_server.Prelude.{
  ◌≡◌, ◌∙◌, sym, refl, ap, ℕ, zero, suc, ◌+◌, ◌/◌, ◌%◌, ◌≤◌, List, [], ◌∷◌, ◌++◌, length,
  length-append, ltb, ◌==◌, false, if◌then◌else◌, ◌⊎◌, inl, inr, arith,
}
use tcp_chat_server.Protocol.Types.{
  ResponseCode, response_code, resp_ok, resp_error_malformed, resp_error_user_exists,
  resp_error_user_not_found, resp_error_invalid_credentials, resp_error_internal,
  resp_error_unknown_command,
}

-- The bytes of a text.
abbrev pub codes : String → List ℕ
codes String.[] = []
codes (String.◌∷◌ c s) = code c ∷ codes s

-- The digits of `n`, of which there are at most `k`.
unfoldable to_string_below : ℕ → ℕ → List ℕ
to_string_below zero n = []
to_string_below (suc k) n =
    let front = to_string_below k (n / 10) in
    if ltb n 10 then (48 + n) ∷ [] else front ++ ((48 + n % 10) ∷ [])

-- `std::to_string`.
unfoldable pub to_string : ℕ → List ℕ
unfolding to_string_below
to_string n = to_string_below (suc n) n

unfoldable pub get_response_message : ℕ → List ℕ
get_response_message n =
    if n == response_code resp_ok
    then codes "Success"
    else if n == response_code resp_error_malformed
    then codes "Malformed request"
    else if n == response_code resp_error_user_exists
    then codes "Username already taken"
    else if n == response_code resp_error_user_not_found
    then codes "User not found"
    else if n == response_code resp_error_invalid_credentials
    then codes "Invalid credentials"
    else if n == response_code resp_error_internal
    then codes "Internal server error"
    else if n == response_code resp_error_unknown_command
    then codes "Unknown command"
    else codes "Unknown response code (" ++ (to_string n ++ codes ")")

get_response_message_4 : get_response_message 4 ≡ codes "Invalid credentials"
unfolding get_response_message
get_response_message_4 = refl

get_response_message_255 : get_response_message 255 ≡ codes "Unknown response code (255)"
unfolding get_response_message to_string to_string_below
get_response_message_255 = refl

-- The code of `response_code_t` whose text is this long.
code_of_length : ℕ → ℕ
code_of_length n =
    if n == 7
    then 0
    else if n == 17
    then 1
    else if n == 22
    then 2
    else if n == 14
    then 3
    else if n == 19
    then 4
    else if n == 21
    then 5
    else 6

record Named (c : ResponseCode) : Type 0 where
  told : code_of_length (length (get_response_message (response_code c))) ≡ response_code c
  short : length (get_response_message (response_code c)) ≤ 22

get_response_message-Named : (c : ResponseCode) → Named c
unfolding get_response_message code_of_length
get_response_message-Named resp_ok = record { told = refl; short = omega arith }
get_response_message-Named resp_error_malformed = record { told = refl; short = omega arith }
get_response_message-Named resp_error_user_exists = record { told = refl; short = omega arith }
get_response_message-Named resp_error_user_not_found = record { told = refl; short = omega arith }
get_response_message-Named resp_error_invalid_credentials = record {
  told = refl;
  short = omega arith;
}
get_response_message-Named resp_error_internal = record { told = refl; short = omega arith }
get_response_message-Named resp_error_unknown_command = record { told = refl; short = omega arith }

unknown_long : (s : List ℕ) → 23 ≤ length (codes "Unknown response code (" ++ s)
unknown_long s =
    let split : length (codes "Unknown response code (" ++ s) ≡ 23 + length s =
      length-append (codes "Unknown response code (") s in
    omega (arith, split)

get_response_message_long : (k : ℕ) → 7 ≤ k → 23 ≤ length (get_response_message k)
unfolding get_response_message
get_response_message_long k h =
    let no : (c : ℕ) → c ≤ 6 → (k == c) ≡ false = λ c small. ground arith in
    rw
      (
        no 0 (omega arith),
        no 1 (omega arith),
        no 2 (omega arith),
        no 3 (omega arith),
        no 4 (omega arith),
        no 5 (omega arith),
        no 6 (omega arith),
      )
      (unknown_long (to_string k ++ codes ")"))

-- The numbers of `response_code_t`.
pub record IsCode (k : ℕ) : Type 0 where
  pub name : ResponseCode
  pub number : k ≡ response_code name

IsCode-or_long : (k : ℕ) → IsCode k ⊎ (7 ≤ k)
IsCode-or_long zero = inl (record { name = resp_ok; number = refl })
IsCode-or_long (suc zero) = inl (record { name = resp_error_malformed; number = refl })
IsCode-or_long (suc (suc zero)) = inl (record { name = resp_error_user_exists; number = refl })
IsCode-or_long (suc (suc (suc zero))) =
    inl (record { name = resp_error_user_not_found; number = refl })
IsCode-or_long (suc (suc (suc (suc zero)))) =
    inl (record { name = resp_error_invalid_credentials; number = refl })
IsCode-or_long (suc (suc (suc (suc (suc zero))))) =
    inl (record { name = resp_error_internal; number = refl })
IsCode-or_long (suc (suc (suc (suc (suc (suc zero)))))) =
    inl (record { name = resp_error_unknown_command; number = refl })
IsCode-or_long (suc (suc (suc (suc (suc (suc (suc k))))))) = inr (omega arith)

-- The length of the text of a code, and what code has a text so long.
told_number : (k : ℕ) → IsCode k → code_of_length (length (get_response_message k)) ≡ k
told_number k c = rw c.number (get_response_message-Named c.name).told

-- A text that stands for a code of `response_code_t` stands for no other number.
pub get_response_message_tells :
    (k n : ℕ) → IsCode n → get_response_message k ≡ get_response_message n → k ≡ n
get_response_message_tells k n c e = elim (IsCode-or_long k) [
  | inl d ↦ sym (told_number k d) ∙ (ap (λ s. code_of_length (length s)) e ∙ told_number n c)
  | inr large ↦
      let long = get_response_message_long k large in
      let short : length (get_response_message n) ≤ 22 =
        rw c.number (get_response_message-Named c.name).short in
      absurd (omega (arith, ap length e))
]
