-- ===== src/Console/Lines.antt =====
-- What the console helpers make of a line.
use tcp_chat_server.Prelude.{
  ◌≡◌, ◌≢◌, ◌∙◌, refl, ap, ℕ, zero, suc, none, some, Bool, List, [], ◌∷◌, ◌++◌, take, true, false,
  ◌==◌, arith, All,
}
use tcp_chat_server.Database.{c_str}
use tcp_chat_server.Client.Words.Laws.{IsBlank, IsWord, IsBreak, extract-word, extract-blank}
use tcp_chat_server.Console.{
  fgets, before_newline, ignore_line, end_line, get_stdin, after_extract, get_string_cin,
}

-- The bytes of a line: no newline, and no zero byte.
abbrev pub IsText : List ℕ → Type 0
IsText = All (λ c. (c ≢ 10) × (c ≢ 0))

ignore_line_lem : (line rest : List ℕ) → IsText line → ignore_line (line ++ (10 ∷ rest)) ≡ rest
unfolding ignore_line
ignore_line_lem [] rest t = refl
ignore_line_lem (c ∷ cs) rest ((no_newline, no_zero), t) =
    let other : (c == 10) ≡ false = ground arith in rw other (ignore_line_lem cs rest t)

end_line-cons :
    (c : ℕ) (p : Bool × List ℕ) (rest : List ℕ)
    → end_line (p.0, c ∷ p.1) rest ≡ (c ∷ (end_line p rest).0, (end_line p rest).1)
unfolding end_line
end_line-cons c (true, before) rest = refl
end_line-cons c (false, text) rest = refl

fgets-cons :
    (room c : ℕ) (cs : List ℕ)
    → c ≢ 10
    → fgets (suc room) (c ∷ cs) ≡ (c ∷ (fgets room cs).0, (fgets room cs).1)
unfolding fgets
fgets-cons room c cs no_newline = let other : (c == 10) ≡ false = ground arith in rw other refl

before_newline-cons :
    (c : ℕ) (text : List ℕ)
    → c ≢ 10
    → c ≢ 0
    → before_newline (c_str (c ∷ text))
      ≡ ((before_newline (c_str text)).0, c ∷ (before_newline (c_str text)).1)
unfolding before_newline c_str
before_newline-cons c text no_newline no_zero =
    let other : (c == 10) ≡ false = ground arith in
    let byte : (c == 0) ≡ false = ground arith in rw byte (rw other refl)

-- The end of the line is met in the buffer, or behind it.
line_ended :
    (room : ℕ) (line rest : List ℕ)
    → IsText line
    → let (text, left) = fgets room (line ++ (10 ∷ rest)) in
      end_line (before_newline (c_str text)) left ≡ (take room line, rest)
unfolding fgets before_newline c_str end_line
line_ended zero line rest t = ap (λ r. ([], r)) (ignore_line_lem line rest t)
line_ended (suc room) [] rest t = refl
line_ended (suc room) (c ∷ cs) rest ((no_newline, no_zero), t) =
    let read = fgets room (cs ++ (10 ∷ rest)) in
    ap (λ p. end_line (before_newline (c_str p.0)) p.1)
      (fgets-cons room c (cs ++ (10 ∷ rest)) no_newline)
    ∙ ap (λ p. end_line p read.1) (before_newline-cons c read.0 no_newline no_zero)
    ∙ end_line-cons c (before_newline (c_str read.0)) read.1
    ∙ ap (λ p. (c ∷ p.0, p.1)) (line_ended room cs rest t)

-- Whatever the size of its buffer, `get_stdin` takes exactly one line from the input, up to its
-- newline: the buffer holds the line, or as much from its front as it has room for, and the next
-- call reads the next line. The line has no zero byte.
pub get_stdin_line :
    (room : ℕ) (line rest : List ℕ)
    → IsText line
    → get_stdin room (line ++ (10 ∷ rest)) ≡ some (take room line, rest)
unfolding get_stdin
get_stdin_line room [] rest t = ap some (line_ended room [] rest t)
get_stdin_line room (c ∷ cs) rest t = ap some (line_ended room (c ∷ cs) rest t)

-- `get_string_cin` gives the first word and drops the rest of its line.
get_string_cin_word :
    (fuel : ℕ) (blank word rest : List ℕ)
    → IsBlank blank
    → IsWord word
    → IsBreak rest
    → get_string_cin (suc fuel) (blank ++ (word ++ rest)) ≡ some (word, ignore_line rest)
unfolding get_string_cin after_extract
get_string_cin_word fuel blank [] rest b i k = absurd (i.some_byte refl)
get_string_cin_word fuel blank (c ∷ cs) rest b i k =
    ap (λ e. after_extract e (get_string_cin fuel [])) (extract-word blank (c ∷ cs) rest b i k)

-- It never ends at the end of the input, where only white space is left.
get_string_cin_eof : (fuel : ℕ) (blank : List ℕ) → IsBlank blank → get_string_cin fuel blank ≡ none
unfolding get_string_cin after_extract
get_string_cin_eof zero blank b = refl
get_string_cin_eof (suc fuel) blank b =
    ap (λ e. after_extract e (get_string_cin fuel [])) (extract-blank blank b)
    ∙ get_string_cin_eof fuel [] tt
