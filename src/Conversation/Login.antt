-- ===== src/Conversation/Login.antt =====
-- A login from the typed line to the client that is logged in.
use tcp_chat_server.Prelude.{
  ◌≡◌, ◌∙◌, ap, ℕ, ◌≤◌, ◌<◌, some, List, [], ◌++◌, take, drop, length, true, false, pos,
}
use tcp_chat_server.Protocol.Types.{Message, User, Credentials}
use tcp_chat_server.Protocol.Message.{write_message_to_buffer}
use tcp_chat_server.Protocol.Request.{Request}
use tcp_chat_server.Protocol.Credentials.{build_login_request}
use tcp_chat_server.Protocol.Accounts.{build_login_response}
use tcp_chat_server.Protocol.Accounts.RoundTrip.{build_login_response-IsWire}
use tcp_chat_server.Protocol.Transport.{ReadResult, WriteResult, read_one_message, read_message}
use tcp_chat_server.Protocol.Transport.Chunks.{Delivers, Takes}
use tcp_chat_server.Flags.{has_flag, is_active, is_auth}
use tcp_chat_server.Database.{Sqlite, get_user_by_username, string_to_lower}
use tcp_chat_server.Server.Table.{flags_of, incoming_of, outgoing_of, user_id_of, username_of}
use tcp_chat_server.Server.Table.Layout.{IsTable}
use tcp_chat_server.Server.Session.{Server, try_one_request, empty_response}
use tcp_chat_server.Protocol.Accounts.{no_user}
use tcp_chat_server.Client.{Client, logged_in, handle_server_response}
use tcp_chat_server.Client.Responses.{authenticated_as, handle_server_response-build_login_response}
use tcp_chat_server.Client.Shell.{command_shell}
use tcp_chat_server.Conversation.Reading.{message_read}
use tcp_chat_server.Conversation.Typing.{IsLoginLine, command_shell-login}
use tcp_chat_server.Conversation.Served.{login_served, after-IsLoggedIn}

-- A login from the keyboard to the keyboard. A client that is not logged in types `/login`, in any
-- spelling, a username and a password, of at most 32 bytes each, and the socket takes the request. A
-- connection of a well-formed table, on which nothing is to be sent, has received just these bytes,
-- and the lookup of the username in lower case finds a user with that password, with a 32-bit id and
-- a name of at most 32 bytes. Then the request is served: the slot is authenticated and has the
-- user's id and name. Whatever chunks the client then reads the slot's outgoing bytes in, header
-- first, it reads one message, and handles it by taking over that id and name and setting IS_AUTH.
pub login_conversation :
    (sqlite : Sqlite) (connfd : ℕ) (s : Server sqlite.State) (conn : Client)
    (results : List WriteResult) (input_line : List ℕ) (c : Credentials) (r : Request) (user : User)
    (header_reads payload_reads more : List ReadResult) (message : Message)
    → IsLoginLine input_line c.username c.password
    → has_flag conn.flags is_auth ≡ false
    → build_login_request c ≡ some r
    → Takes results r.bytes
    → IsTable s.table
    → has_flag (flags_of s.table connfd) is_active ≡ true
    → incoming_of s.table connfd ≡ (command_shell conn results input_line).sent
    → outgoing_of s.table connfd ≡ []
    → get_user_by_username sqlite s.database (string_to_lower c.username) no_user ≡ (pos 1, user)
    → user.password ≡ c.password
    → user.user_id < 4294967296
    → length user.username ≤ 32
    → let (served, s') = try_one_request sqlite connfd s in
      Delivers true header_reads (take 7 (outgoing_of s'.table connfd))
      → Delivers false payload_reads (drop 7 (outgoing_of s'.table connfd))
      → (served ≡ true)
        × (has_flag (flags_of s'.table connfd) is_auth ≡ true)
        × (user_id_of s'.table connfd ≡ user.user_id)
        × (username_of s'.table connfd ≡ user.username)
        × ((m : Message) × (read_one_message (header_reads ++ (payload_reads ++ more)) message
              ≡ read_message m more)
            × (handle_server_response m conn
                ≡ (logged_in (record user { password = [] }), authenticated_as user conn)))
login_conversation sqlite connfd s conn results input_line c r user header_reads payload_reads more
      message l guest built all_taken v active received nothing found right small short hs ps =
    let turn = command_shell-login conn results input_line c r l guest built all_taken in
    let got = received ∙ ap (λ t. t.sent) turn in
    let (wire, fits, whole) = build_login_response-IsWire empty_response user small short in
    let done =
      after-IsLoggedIn sqlite connfd s c r user v active built got found right small short in
    (
      ap (λ p. p.0)
          (login_served sqlite connfd s c r user v active built got found right small short),
      done.auth,
      done.id,
      done.name,
      (
        (build_login_response empty_response user).1,
        message_read (build_login_response empty_response user).1 wire fits whole _
            (done.outgoing
              ∙ ap (λ b. write_message_to_buffer b (build_login_response empty_response user).1)
                  nothing)
            header_reads payload_reads more message hs ps,
        handle_server_response-build_login_response empty_response conn user small short,
      ),
    )
