-- ===== src/Client/Words/Laws.antt =====
-- Words and white space: what an extraction takes from a line that is written out in parts.
use tcp_chat_server.Prelude.{
  ◌≡◌, ◌∙◌, refl, ap, ℕ, List, [], ◌∷◌, ◌++◌, true, false, ◌≢◌, All, arith,
}
use tcp_chat_server.Client.Words.{is_space, skip_spaces, word, after_word, extract, line}

abbrev pub IsBlank : List ℕ → Type 0
IsBlank = All (λ c. is_space c ≡ true)

-- A word has no white space, and is not empty.
pub record IsWord (w : List ℕ) : Type 0 where
  pub visible : All (λ c. is_space c ≡ false) w
  pub some_byte : w ≢ []

-- The line ends here, or white space follows.
abbrev pub IsBreak : List ℕ → Type 0
IsBreak [] = Unit
IsBreak (c ∷ cs) = is_space c ≡ true

abbrev pub IsVisible : List ℕ → Type 0
IsVisible [] = ⊥
IsVisible (c ∷ cs) = is_space c ≡ false

skip_blank : (blank rest : List ℕ) → IsBlank blank → skip_spaces (blank ++ rest) ≡ skip_spaces rest
unfolding skip_spaces
skip_blank [] rest b = refl
skip_blank (c ∷ cs) rest (first, more) = rw first (skip_blank cs rest more)

skip_visible : (rest : List ℕ) → IsVisible rest → skip_spaces rest ≡ rest
unfolding skip_spaces
skip_visible [] v = absurd v
skip_visible (c ∷ cs) v = rw v

-- Leading white space is skipped.
pub skip_spaces-append :
    (blank rest : List ℕ) → IsBlank blank → IsVisible rest → skip_spaces (blank ++ rest) ≡ rest
skip_spaces-append blank rest b v = skip_blank blank rest b ∙ skip_visible rest v

word-break : (rest : List ℕ) → IsBreak rest → word rest ≡ []
unfolding word
word-break [] b = refl
word-break (c ∷ cs) b = rw b

after_word-break : (rest : List ℕ) → IsBreak rest → after_word rest ≡ rest
unfolding after_word
after_word-break [] b = refl
after_word-break (c ∷ cs) b = rw b

pub word-append :
    (w rest : List ℕ) → All (λ c. is_space c ≡ false) w → IsBreak rest → word (w ++ rest) ≡ w
unfolding word
word-append [] rest v b = unfold word in word-break rest b
word-append (c ∷ cs) rest (first, more) b = rw first (ap (λ r. c ∷ r) (word-append cs rest more b))

pub after_word-append :
    (w rest : List ℕ)
    → All (λ c. is_space c ≡ false) w
    → IsBreak rest
    → after_word (w ++ rest) ≡ rest
unfolding after_word
after_word-append [] rest v b = unfold after_word in after_word-break rest b
after_word-append (c ∷ cs) rest (first, more) b = rw first (after_word-append cs rest more b)

word-IsVisible : (w rest : List ℕ) → IsWord w → IsVisible (w ++ rest)
word-IsVisible [] rest i = absurd (i.some_byte refl)
word-IsVisible (c ∷ cs) rest i = i.visible.0

-- Behind white space a word is extracted whole, up to the next white space.
pub extract-word :
    (blank w rest : List ℕ)
    → IsBlank blank
    → IsWord w
    → IsBreak rest
    → extract (blank ++ (w ++ rest)) ≡ (w, rest)
unfolding extract
extract-word blank w rest b i k =
    let skipped = skip_spaces-append blank (w ++ rest) b (word-IsVisible w rest i) in
    rw (skipped, word-append w rest i.visible k, after_word-append w rest i.visible k)

skip_all : (blank : List ℕ) → IsBlank blank → skip_spaces blank ≡ []
unfolding skip_spaces
skip_all [] b = refl
skip_all (c ∷ cs) (first, more) = rw first (skip_all cs more)

-- Of nothing but white space nothing is extracted.
pub extract-blank : (blank : List ℕ) → IsBlank blank → extract blank ≡ ([], [])
unfolding extract word after_word
extract-blank blank b = rw (skip_all blank b)

-- A line has no newline in it.
abbrev pub IsLine : List ℕ → Type 0
IsLine = All (λ c. c ≢ 10)

pub line_whole : (cs : List ℕ) → IsLine cs → line cs ≡ cs
unfolding line
line_whole [] h = refl
line_whole (c ∷ cs) (first, more) = ground (arith, line_whole cs more, first)
