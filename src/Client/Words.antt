-- ===== src/Client/Words.antt =====
-- What `command_shell` of src/client_utils.cpp takes from a typed line: `ss >> word`, `ss >> std::ws`
-- and `std::getline` on a string stream, which is the bytes that are left. A stream at its end
-- gives nothing more.
pub mod Laws
use tcp_chat_server.Prelude.{ℕ, List, [], ◌∷◌, Bool, ◌||◌, ◌&&◌, leb, ◌==◌, if◌then◌else◌}

-- `std::isspace` in the C locale: space, \t, \n, \v, \f and \r.
unfoldable pub is_space : ℕ → Bool
is_space c = c == 32 || leb 9 c && leb c 13

-- `ss >> std::ws`.
unfoldable pub skip_spaces : List ℕ → List ℕ
unfolding is_space
skip_spaces [] = []
skip_spaces (c ∷ cs) = let rest = skip_spaces cs in if is_space c then rest else c ∷ cs

-- The bytes up to the first white space, and what follows.
unfoldable pub word : List ℕ → List ℕ
unfolding is_space
word [] = []
word (c ∷ cs) = let rest = word cs in if is_space c then [] else c ∷ rest

unfoldable pub after_word : List ℕ → List ℕ
unfolding is_space
after_word [] = []
after_word (c ∷ cs) = let rest = after_word cs in if is_space c then c ∷ cs else rest

-- `ss >> s`: the string, empty if the extraction fails, and what is left of the stream.
unfoldable pub extract : List ℕ → List ℕ × List ℕ
unfolding skip_spaces word after_word
extract ss = (word (skip_spaces ss), after_word (skip_spaces ss))

-- `std::getline(ss, s)`.
unfoldable pub line : List ℕ → List ℕ
line [] = []
line (c ∷ cs) = let rest = line cs in if c == 10 then [] else c ∷ rest
