-- ===== src/Database/Memory.antt =====
-- What the server relies on of SQLite: the two statements of src/db.cpp as their text says. A table
-- in memory shows that it can be had.
use tcp_chat_server.Prelude.{
  ℕ, ◌+◌, ◌≡◌, refl, ap, sym, some, List, [], ◌∷◌, Bool, true, false, ◌==◌, if◌then◌else◌, bytes_eq,
  bytes_eq_refl, length, Bool-cases, inl, inr, arith,
}
use tcp_chat_server.Database.{
  Sqlite, Selected, no_row, row, Inserted, done, step_failed, c_str, to_lower, string_to_lower,
}

-- `SELECT … WHERE LOWER(username) = ?` finds the row that `INSERT INTO users` has stored, for every
-- spelling of the username, if it found no row before.
pub record StoresUsers (sqlite : Sqlite) : Type 0 where
  pub stored :
      (db db' : sqlite.State) (username password : List ℕ) (id : ℕ)
      → sqlite.select_by_lower_username db (string_to_lower username) ≡ no_row
      → sqlite.insert_row db username password ≡ (db', done id)
      → sqlite.select_by_lower_username db' (string_to_lower username)
        ≡ row id (some username) (some password)

-- A string without a zero byte, which is handed over as a whole.
abbrev pub IsText : List ℕ → Type 0
IsText s = c_str s ≡ s

to_lower_zero : (c : ℕ) → (c == 0) ≡ false → (to_lower c == 0) ≡ false
unfolding to_lower
to_lower_zero c h = ground arith

pub string_to_lower-IsText : (s : List ℕ) → IsText s → IsText (string_to_lower s)
unfolding c_str string_to_lower
string_to_lower-IsText [] text = refl
string_to_lower-IsText (c ∷ cs) text = elim (Bool-cases (c == 0)) [
  | inl zero ↦ let no : [] ≡ c ∷ cs = rw zero at text in cc
  | inr other ↦
      let whole : c ∷ c_str cs ≡ c ∷ cs = rw other at text in
      rw (to_lower_zero c other) (ap (λ r. to_lower c ∷ r) (string_to_lower-IsText cs cc))
]

abbrev Row : Type 0
Row = ℕ × List ℕ × List ℕ

-- The SELECT over the rows.
abbrev find_row : List Row → List ℕ → Selected
find_row [] key = no_row
find_row ((id, username, password) ∷ rows) key =
    if bytes_eq (string_to_lower username) key
    then row id (some username) (some password)
    else find_row rows key

-- `username TEXT UNIQUE`.
abbrev has_username : List Row → List ℕ → Bool
has_username [] key = false
has_username ((id, username, password) ∷ rows) key =
    if bytes_eq username key then true else has_username rows key

abbrev insert_into : List Row → List ℕ → List ℕ → List Row × Inserted
insert_into rows username password =
    if has_username rows username
    then (rows, step_failed)
    else ((length rows + 1, username, password) ∷ rows, done (length rows + 1))

abbrev pub memory_sqlite : Sqlite
memory_sqlite = record {
  State = List Row;
  select_by_lower_username = find_row;
  insert_row = insert_into;
}

stored_row :
    (db db' : List Row) (username password : List ℕ) (id : ℕ)
    → insert_into db username password ≡ (db', done id)
    → find_row db' (string_to_lower username) ≡ row id (some username) (some password)
stored_row db db' username password id inserted = elim (Bool-cases (has_username db username)) [
  | inl taken ↦
      let no : (db, step_failed) ≡ (db', done id) = rw taken at inserted in
      let never : step_failed ≡ done id = ap (λ p. p.1) no in cc
  | inr free ↦
      let new = length db + 1 in
      let yes : ((new, username, password) ∷ db, done new) ≡ (db', done id) = rw free at inserted in
      let same : done new ≡ done id = ap (λ p. p.1) yes in
      let number : new ≡ id = cc in
      rw (sym (ap (λ p. p.0) yes), bytes_eq_refl (string_to_lower username), number)
]

pub memory_sqlite-StoresUsers : StoresUsers memory_sqlite
memory_sqlite-StoresUsers = record {
  stored = λ db db' username password id missing inserted.
      stored_row db db' username password id inserted;
}
