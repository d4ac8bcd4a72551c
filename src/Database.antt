-- ===== src/Database.antt =====
-- src/db.cpp over SQLite. The library's calls are a parameter: `Sqlite`.
pub mod Memory
use tcp_chat_server.Prelude.{
  ℕ, ◌%◌, ◌+◌, Option, none, some, List, [], ◌∷◌, Bool, leb, ◌==◌, ◌&&◌, if◌then◌else◌, map, ℤ, pos,
  negsuc,
}
use tcp_chat_server.Protocol.Types.{User}

-- What `sqlite3_prepare_v2` and `sqlite3_step` answer to the SELECT: the statement cannot be
-- prepared, no row comes (`SQLITE_DONE` or an error), or a row with an id and two texts, each of
-- which can be NULL.
pub data Selected : Type 0 where
  select_failed : Selected
  no_row : Selected
  row : ℕ → Option (List ℕ) → Option (List ℕ) → Selected

-- What they answer to the INSERT: no statement, `SQLITE_DONE` with the last rowid, or an error.
pub data Inserted : Type 0 where
  insert_failed : Inserted
  done : ℕ → Inserted
  step_failed : Inserted

-- The users table behind its two statements.
pub record Sqlite : Type 1 where
  pub State : Type 0
  pub select_by_lower_username : State → List ℕ → Selected
  pub insert_row : State → List ℕ → List ℕ → State × Inserted

-- A `std::string` that is handed over as a C string ends at its first zero byte.
unfoldable pub c_str : List ℕ → List ℕ
c_str [] = []
c_str (c ∷ cs) = let rest = c_str cs in if c == 0 then [] else c ∷ rest

-- `sql_text ? sql_text : ""`.
unfoldable pub text_or_empty : Option (List ℕ) → List ℕ
text_or_empty none = []
text_or_empty (some text) = c_str text

-- `std::tolower` in the C locale.
unfoldable pub to_lower : ℕ → ℕ
to_lower c = if leb 65 c && leb c 90 then c + 32 else c

unfoldable pub string_to_lower : List ℕ → List ℕ
unfolding to_lower
string_to_lower s = map to_lower s

abbrev user_of_row : Selected → User → ℤ × User
user_of_row select_failed user = (negsuc 0, user)
user_of_row no_row user = (pos 0, user)
user_of_row (row id username password) user = (
  pos 1,
  record {
    user_id = id % 4294967296;
    username = text_or_empty username;
    password = text_or_empty password;
  },
)

abbrev user_of_insert : Inserted → User → ℤ × User
user_of_insert insert_failed user = (negsuc 0, user)
user_of_insert (done id) user = (pos 0, record user { user_id = id % 4294967296 })
user_of_insert step_failed user = (negsuc 0, user)

module _ (sqlite : Sqlite) where
  open sqlite use {State, select_by_lower_username, insert_row}

  -- The return value, and the user that the reference holds then.
  unfoldable pub get_user_by_username : State → List ℕ → User → ℤ × User
  unfolding c_str text_or_empty
  get_user_by_username db username user =
      user_of_row (select_by_lower_username db (c_str username)) user

  unfoldable pub insert_user : State → User → State × ℤ × User
  unfolding c_str
  insert_user db user =
      let (db', inserted) = insert_row db (c_str user.username) (c_str user.password) in
      let (rc, user') = user_of_insert inserted user in (db', rc, user')
