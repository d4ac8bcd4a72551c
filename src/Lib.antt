-- ===== src/Lib.antt =====
-- A model of the TCP chat server and its client: the binary protocol, the connection table, the
-- request handlers, the event loop, and the client's command line and threads, as functions, with
-- what they do proved of them.
--
-- The server keeps one connection table, a structure of arrays indexed by the socket's descriptor.
-- epoll says which socket is ready; `main` reads what has come into the connection's incoming
-- buffer, serves the whole requests in it one after the other, and writes what stands in the
-- outgoing buffer. A request registers a user, logs the connection in, or sends a broadcast to the
-- other connections, whose outgoing buffers it fills. Users are kept in SQLite.
--
-- Which file models what:
--   Prelude              numbers, Boolean tests and lists that all files share
--   Protocol/Types       the enums and structs of include/protocol.hpp, the limits of include/shared.hpp
--   Protocol/Bytes, Tlv  write_tlv, 32-bit integers in memory, and the loop over the TLVs of a payload
--   Protocol/Message     buf_append, buf_consume, write_message_to_buffer, parse_message,
--                        peek_broadcast_type, build_server_response
--   Protocol/Request     how the client's builders end
--   Protocol/Credentials, Accounts, World, P2p
--                        the build_ and parse_ functions of src/protocol.cpp, by kind of message
--   Protocol/Buffers     which requests the client builds, and that they fit its buffer
--   Protocol/Codes       get_response_message, and the codes that the parsers and builders return
--   Protocol/Transport   read_one_message and write_one_message on a blocking socket
--   Flags                ConnFlags and its operators (include/shared.hpp, src/shared.cpp)
--   Database             get_user_by_username and insert_user of src/db.cpp
--   Console              get_stdin, ignore_line, get_string_cin of src/shared.cpp
--   Server/Table         ConnectionManager, set_connection_state, add_connection, remove_connection
--   Server/Broadcast     handle_broadcast_message
--   Server/Session       register_user, login_user, try_one_request
--   Server/Loop          handle_read_connection, handle_write_connection, accept_all_connections,
--                        and the loop of main in src/server.cpp
--   Server/Interest      what epoll watches of each connection, against its flags
--   Server/Logins        an abstract machine of logins, and that the event loop refines it
--   Server/Startup       set_nonblocking_fd, open_listenfd, init_server, init_db, init_logger, and main
--                        of src/server.cpp up to its loop; sigint_handler, close_db
--   Descriptors          which descriptors a sequence of system calls leaves open
--   Server/Console       handle_server_input and the counts of log_server_metrics
--   Client               handle_registration_response, handle_login_response,
--                        handle_broadcast_response, handle_server_response of src/client_utils.cpp
--   Client/Words         operator>>, std::ws and std::getline on the typed line
--   Client/Shell         command_shell, and the functions that send a request
--   Client/Threads       socket_thread_handler and run_messaging_loop
--   Client/Texts         print_chat_message
--   Client/Startup       create_client_connection, and main of src/client.cpp
--   Conversation         a login, a private message and a message to all, from the typed line
--                        through the server to the clients that read what it sends
--   Examples             the theorems at concrete inputs
-- The functions have the names of the source. Where C++ has two functions of one name, the client's
-- build_world_broadcast and build_p2p_broadcast end in _request here. A function that changes a
-- reference returns its new value behind the return value, and the global conn_manager is an
-- argument and a result, together with the epoll_ctl calls made.
--
-- Numbers and bounds. Bytes and masks are natural numbers with their wrap-around written out: the
-- length byte of a TLV is taken modulo 2^8, the 32-bit lengths and ids modulo 2^32. The host is
-- little endian. Descriptors are not negative. The loop over TLVs recurs on a bound of the bytes
-- that are left; the loop of requests has fuel, one more than the bytes received, and is proved to
-- end within it, since each served request takes seven bytes at least. to_string recurs on a
-- bound of the digits, one more than the number. get_string_cin has fuel, and at the end of its input
-- no fuel is enough. A loop that waits for the system (poll, getline, epoll_wait)
-- recurs on the results that are given, and is said to wait still when they are used up.
--
-- What is outside: SQLite is the parameter Sqlite, its two statements as functions on a state, with
-- the law StoresUsers where a theorem needs it; Database/Memory has a table in memory that
-- satisfies it. What read, write, accept, fcntl, epoll_wait and EPOLL_CTL_ADD return is data that the
-- functions take (ReadResult, WriteResult, Reads, Writes, Accepted, Event); a call of epoll_wait that
-- fails ends the loop, and so do the exits of set_nonblocking_fd and accept_all_connections. A message
-- that write_one_message is to send from past its buffer has no return value. A memcpy past the end of
-- a field is an outcome of its own (overruns). An index out of the table reads an inactive slot and
-- writes nothing; the source does not check it.
--
-- Not modelled: what the logger and the metrics print, get_valid_input_range of
-- src/shared.cpp, and the tests.
pub mod Client
pub mod Console
pub mod Conversation
pub mod Database
pub mod Descriptors
pub mod Examples
pub mod Flags
pub mod Prelude
pub mod Protocol
pub mod Server
