-- ===== src/Examples/Responses.antt =====
-- The client's handlers of src/client_utils.cpp at concrete responses.
use tcp_chat_server.Prelude.{◌≡◌, refl, some, [], ◌∷◌, pos}
use tcp_chat_server.Protocol.Types.{Message}
use tcp_chat_server.Protocol.Accounts.{parse_login_response, no_user}
use tcp_chat_server.Client.{Client, logged_in, handle_login_response}
use tcp_chat_server.Client.Responses.{authenticated_as, handle_login_response_unchecked}

abbrev guest : Client
guest = record { user = no_user; flags = 0 }

-- A login response with code RESP_OK whose only TLV is cut off.
abbrev cut_off : Message
cut_off = record {
  payload_length = 3;
  version = 1;
  type = 1;
  rc = 0;
  payload = some (0 ∷ 5 ∷ 97 ∷ []);
}

handle_login_response_unchecked_example :
    handle_login_response cut_off guest ≡ (logged_in no_user, authenticated_as no_user guest)
unfolding parse_login_response
handle_login_response_unchecked_example =
    handle_login_response_unchecked cut_off guest (pos 1) no_user refl refl
