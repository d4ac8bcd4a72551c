-- ===== src/Server/Startup/Signals.antt =====
-- The end of the server: `sigint_handler` of src/server.cpp and `close_db` of src/db.cpp.
use tcp_chat_server.Prelude.{
  ◌≡◌, refl, ap, ◌∙◌, ℕ, Option, none, some, List, [], ◌∷◌, ◌++◌, Bool, false, not, All,
}
use tcp_chat_server.Descriptors.{Call, closes, held, held-append, remove-head}
use tcp_chat_server.Server.Startup.{Fcntl, Address, listens, open_listenfd, DbPath, app_db, test_db}
use tcp_chat_server.Server.Startup.Sockets.{Closes, Clean, open_listenfd-Clean}

-- Which files there are.
abbrev pub Files : Type 0
Files = DbPath → Bool

unfoldable pub without_test_db : Files → Files
without_test_db files app_db = files app_db
without_test_db files test_db = false

-- The files afterwards, and whether an error is printed, since there was nothing to remove.
unfoldable pub close_db : Files → Files × Bool
unfolding without_test_db
close_db files = (without_test_db files, not (files test_db))

-- What is closed, the files that are left, and the exit code; -1 is `none`.
unfoldable pub sigint_handler : Option ℕ → Files → List Call × Files × ℕ
unfolding close_db
sigint_handler none files = ([], (close_db files).0, 0)
sigint_handler (some listenfd) files = (closes listenfd ∷ [], (close_db files).0, 0)

-- A server that listens, and gets a signal, has closed its socket, exits with code 0, and leaves the
-- file of its database as it is.
sigint_handler_listening :
    (addresses : List Address) (fcntl : Fcntl) (listen_result : Bool) (fd flags : ℕ) (files : Files)
    → All Closes addresses
    → (open_listenfd (some addresses) fcntl listen_result).opened ≡ listens fd flags
    → let (calls, files', code) = sigint_handler (some fd) files in
      (held ((open_listenfd (some addresses) fcntl listen_result).calls ++ calls) [] ≡ [])
      × (code ≡ 0)
      × (files' app_db ≡ files app_db)
unfolding sigint_handler
sigint_handler_listening addresses fcntl listen_result fd flags files ok started =
    let opening = open_listenfd (some addresses) fcntl listen_result in
    let clean = open_listenfd-Clean (some addresses) fcntl listen_result ok in
    let alone : held opening.calls [] ≡ fd ∷ [] =
      let left : (held opening.calls [] ≡ fd ∷ []) × (opening.frees ≡ 1) =
        rw (Clean, started) at clean in
      left.0 in
    (
      held-append opening.calls (closes fd ∷ []) []
          ∙ (ap (held (closes fd ∷ [])) alone ∙ (unfold held in remove-head fd [])),
      refl,
      refl,
    )
