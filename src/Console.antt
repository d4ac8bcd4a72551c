-- ===== src/Console.antt =====
-- The console helpers of src/shared.cpp, which read the standard input: `get_stdin`, `ignore_line` and
-- `get_string_cin`. The input is the bytes up to its end.
pub mod Lines
use tcp_chat_server.Prelude.{
  ℕ, zero, suc, Option, none, some, List, [], ◌∷◌, Bool, true, false, ◌||◌, ◌==◌, if◌then◌else◌,
}
use tcp_chat_server.Database.{c_str}
use tcp_chat_server.Client.Words.{extract}

-- What `fgets` puts in a buffer with room for so many bytes, and what is left of the input.
unfoldable pub fgets : ℕ → List ℕ → List ℕ × List ℕ
fgets zero input = ([], input)
fgets (suc room) [] = ([], [])
fgets (suc room) (c ∷ cs) =
    let (text, rest) = fgets room cs in if c == 10 then (c ∷ [], cs) else (c ∷ text, rest)

-- `strchr(buffer, '\n')`: whether there is a newline, and what stands before it.
unfoldable pub before_newline : List ℕ → Bool × List ℕ
before_newline [] = (false, [])
before_newline (c ∷ cs) =
    let (found, before) = before_newline cs in if c == 10 then (true, []) else (found, c ∷ before)

-- `while ((c = getchar()) != '\n' && c != EOF);`, and `std::cin.ignore` up to a newline.
unfoldable pub ignore_line : List ℕ → List ℕ
ignore_line [] = []
ignore_line (c ∷ cs) = let rest = ignore_line cs in if c == 10 then cs else rest

-- Once `fgets` has read something.
unfoldable pub end_line : Bool × List ℕ → List ℕ → List ℕ × List ℕ
end_line (true, before) rest = (before, rest)
end_line (false, text) rest = (text, ignore_line rest)

-- The C string in the buffer of `buf_size` bytes, and what is left of the input; `none` is
-- `exit(-1)`, as `fgets` returns NULL at the end of the input. Without any room it does not.
unfoldable pub get_stdin : ℕ → List ℕ → Option (List ℕ × List ℕ)
get_stdin room [] = if room == 0 then some ([], []) else none
get_stdin room (c ∷ cs) =
    let (text, rest) = fgets room (c ∷ cs) in some (end_line (before_newline (c_str text)) rest)

-- What follows an extraction: the word, and the rest of its line is dropped; or none at the end of the
-- input, and the loop goes on.
unfoldable pub after_extract : List ℕ × List ℕ → Option (List ℕ × List ℕ) → Option (List ℕ × List ℕ)
after_extract ([], rest) again = again
after_extract (c ∷ cs, rest) again = some (c ∷ cs, ignore_line rest)

-- `while (true)` with fuel; `none` is that the loop still goes on. An extraction fails only at the
-- end of the input, where the error bits are cleared and the loop starts again.
unfoldable pub get_string_cin : ℕ → List ℕ → Option (List ℕ × List ℕ)
unfolding after_extract
get_string_cin zero input = none
get_string_cin (suc fuel) input = after_extract (extract input) (get_string_cin fuel [])
