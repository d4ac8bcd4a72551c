-- ===== src/Server/Logins.antt =====
-- What the server of src/server_utils.cpp is to promise about who is logged in: an abstract machine
-- that knows nothing of sockets, buffers and masks.
pub mod Keeps
pub mod Requests
pub mod Refines
pub mod Runs
use tcp_chat_server.Prelude.{ℕ, ◌≡◌, ◌≢◌, Option, none, some, List, ◌==◌, false, pos}
use tcp_chat_server.Protocol.Types.{User}
use tcp_chat_server.Protocol.Accounts.{no_user}
use tcp_chat_server.Database.{Sqlite, get_user_by_username, insert_user, string_to_lower}

-- The id and the name of who is logged in on a connection.
abbrev pub Session : Type 0
Session = Option (ℕ × List ℕ)

-- Each connection's session, and the database.
pub record View (D : Type 0) : Type 0 where
  pub sessions : ℕ → Session
  pub database : D

module _ (sqlite : Sqlite) where
  open sqlite use {State}

  -- The sessions of all connections but one are the same.
  abbrev pub SameBut : ℕ → View State → View State → Type 0
  SameBut fd v w = (j : ℕ) → (fd == j) ≡ false → w.sessions j ≡ v.sessions j

  -- A user is stored whose username nobody has in any spelling; a user of the database logs in; or
  -- a connection has no session any more.
  pub data Step (v w : View State) : Type 0 where
    registers :
        (user : User)
        → (get_user_by_username sqlite v.database (string_to_lower user.username) no_user).0 ≢ pos 1
        → w.database ≡ (insert_user sqlite v.database user).0
        → w.sessions ≡ v.sessions
        → Step v w
    logs_in :
        (fd : ℕ) (username : List ℕ) (user : User)
        → get_user_by_username sqlite v.database (string_to_lower username) no_user ≡ (pos 1, user)
        → w.sessions fd ≡ some (user.user_id, user.username)
        → SameBut fd v w
        → w.database ≡ v.database
        → Step v w
    leaves : (fd : ℕ) → w.sessions fd ≡ none → SameBut fd v w → w.database ≡ v.database → Step v w

  pub data Reach (v : View State) : View State → Type 0 where
    here : Reach v v
    next : {w u : View State} → Reach v w → Step w u → Reach v u

  pub Reach-trans : {v w u : View State} → Reach v w → Reach w u → Reach v u
  Reach-trans r here = r
  Reach-trans r (next q s) = next (Reach-trans r q) s
