-- ===== src/Examples/Requests.antt =====
-- Registrations and logins of src/server_utils.cpp at concrete requests, over a database in memory.
use tcp_chat_server.Prelude.{ℕ, ◌≡◌, refl, none, List, [], ◌∷◌, pos, arith}
use tcp_chat_server.Protocol.Types.{
  Message, Credentials, User, msg_type, register, response_code, resp_ok, resp_error_user_exists,
}
use tcp_chat_server.Protocol.Message.{build_server_response}
use tcp_chat_server.Protocol.Credentials.{
  parse_register_request, parse_login_request, no_credentials,
}
use tcp_chat_server.Protocol.Credentials.Parsing.{parse_register_request_complete}
use tcp_chat_server.Protocol.Accounts.{build_register_response, build_login_response}
use tcp_chat_server.Database.{c_str, string_to_lower, to_lower}
use tcp_chat_server.Database.Memory.{memory_sqlite, memory_sqlite-StoresUsers}
use tcp_chat_server.Server.Session.{Server, register_user, login_user, authenticate, dispatch}
use tcp_chat_server.Server.Session.Login.{Authentication, dispatch_authenticates}
use tcp_chat_server.Server.Session.Accounts.{login_user-register_user, register_user_taken}
use tcp_chat_server.Examples.Wire.{alice, hi, blank}
use tcp_chat_server.Examples.Payloads.{tlv, message}
use tcp_chat_server.Examples.Clients.{two_clients, two_clients-IsTable}

abbrev alice_credentials : Credentials
alice_credentials = record { username = alice; password = hi }

-- "ALICE".
abbrev upper_alice : List ℕ
upper_alice = 65 ∷ 76 ∷ 73 ∷ 67 ∷ 69 ∷ []

abbrev upper_credentials : Credentials
upper_credentials = record { username = upper_alice; password = hi }

abbrev alice_request : Message
alice_request = message (tlv 0 alice ∷ tlv 1 hi ∷ []) 11

abbrev upper_request : Message
upper_request = message (tlv 0 upper_alice ∷ tlv 1 hi ∷ []) 11

-- The rows after alice's registration.
abbrev one_user : List (ℕ × List ℕ × List ℕ)
one_user = (1, alice, hi) ∷ []

abbrev alice_account : User
alice_account = record { user_id = 1; username = alice; password = hi }

alice_parses : parse_register_request alice_request no_credentials ≡ (pos 0, alice_credentials)
alice_parses =
    parse_register_request_complete alice_request no_credentials (tlv 0 alice ∷ tlv 1 hi ∷ []) alice
      hi refl (refl, (refl, tt)) refl refl

upper_parses : parse_register_request upper_request no_credentials ≡ (pos 0, upper_credentials)
upper_parses =
    parse_register_request_complete upper_request no_credentials (tlv 0 upper_alice ∷ tlv 1 hi ∷ [])
      upper_alice hi refl (refl, (refl, tt)) refl refl

upper_logs_in : parse_login_request upper_request no_credentials ≡ (pos 0, upper_credentials)
unfolding parse_login_request parse_register_request
upper_logs_in = upper_parses

login_user-register_user_example :
    (register_user memory_sqlite [] alice_request blank
      ≡ (pos (response_code resp_ok), one_user, (build_register_response blank alice_account).1))
    × (login_user memory_sqlite 3 two_clients one_user upper_request blank ≡ (
      pos (response_code resp_ok),
      authenticate two_clients 3 alice_account,
      (build_login_response blank alice_account).1,
    ))
unfolding c_str string_to_lower to_lower
login_user-register_user_example =
    login_user-register_user memory_sqlite memory_sqlite-StoresUsers [] one_user alice_credentials 1
      (omega arith) refl refl (omega arith) refl refl 3 two_clients upper_credentials alice_request
      upper_request blank blank alice_parses upper_logs_in refl refl

register_user_taken_example :
    ((register_user memory_sqlite [] alice_request blank).0 ≡ pos (response_code resp_ok))
    × (register_user memory_sqlite
          (register_user memory_sqlite [] alice_request blank).1
          upper_request
          blank
        ≡ (
          pos (response_code resp_error_user_exists),
          one_user,
          build_server_response
              (msg_type register)
              (pos (response_code resp_error_user_exists))
              none
              0,
        ))
unfolding c_str string_to_lower to_lower
register_user_taken_example =
    register_user_taken memory_sqlite memory_sqlite-StoresUsers [] one_user alice_credentials 1
      (omega arith) refl refl (omega arith) refl refl upper_credentials alice_request upper_request
      blank blank alice_parses upper_parses refl

-- A request of type LOGIN from the guest in slot 3.
abbrev login_request : Message
login_request = record upper_request { type = 1 }

dispatch_authenticates_example :
    let s : Server (List (ℕ × List ℕ × List ℕ)) = record {
      table = two_clients;
      database = one_user;
    } in
    let (s', answer) = dispatch memory_sqlite 3 s login_request blank in
    Authentication memory_sqlite 3 one_user login_request two_clients s'.table 3
dispatch_authenticates_example =
    dispatch_authenticates memory_sqlite 3 two_clients one_user login_request two_clients-IsTable
      blank 3
