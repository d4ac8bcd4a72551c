-- ===== src/Examples/Replies.antt =====
-- What a guest who sends a message is told.
use tcp_chat_server.Prelude.{◌≡◌, refl, sym, ℕ, List, []}
use tcp_chat_server.Protocol.Types.{Message}
use tcp_chat_server.Protocol.Message.{build_server_response}
use tcp_chat_server.Protocol.Codes.{codes, IsCode, get_response_message}
use tcp_chat_server.Flags.{has_flag}
use tcp_chat_server.Database.Memory.{memory_sqlite}
use tcp_chat_server.Server.Broadcast.{reject, handle_broadcast_message}
use tcp_chat_server.Server.Session.{Server, dispatch, empty_response}
use tcp_chat_server.Server.Session.Codes.{dispatch_told}
use tcp_chat_server.Examples.Wire.{blank}
use tcp_chat_server.Examples.Clients.{two_clients}

abbrev server : Server (List (ℕ × List ℕ × List ℕ))
server = record { table = two_clients; database = [] }

-- A request of type CHAT, from the guest in slot 3.
abbrev chat_request : Message
chat_request = record blank { type = 2 }

abbrev told : Message
told = (dispatch memory_sqlite 3 server chat_request empty_response).1

told_text : get_response_message told.rc ≡ codes "Invalid credentials"
unfolding dispatch handle_broadcast_message reject build_server_response has_flag
    get_response_message
told_text = refl

guest_code : get_response_message 4 ≡ get_response_message told.rc
unfolding get_response_message
guest_code = sym told_text

dispatch_told_example : IsCode told.rc × (4 ≡ told.rc)
dispatch_told_example =
    dispatch_told memory_sqlite 3 server chat_request empty_response 4 guest_code
