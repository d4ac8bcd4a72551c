-- ===== src/Client/Texts/Distinct.antt =====
-- The lines that `print_chat_message` of src/client_utils.cpp prints for names and texts.
use tcp_chat_server.Prelude.{
  ◌≡◌, ◌≢◌, ◌∙◌, sym, refl, ap, ℕ, List, [], ◌∷◌, ◌++◌, append_assoc, length, length-append, take,
  drop, take_front, get_or, false, ◌==◌, All, arith,
}
use tcp_chat_server.Database.{c_str}
use tcp_chat_server.Client.Words.{is_space, word, after_word}
use tcp_chat_server.Client.Words.Laws.{IsWord, IsBreak, word-append, after_word-append}
use tcp_chat_server.Client.Texts.{global_tag, dm_tag, to_tag, said_text, print_chat_message}

-- No byte is zero.
abbrev pub IsPlain : List ℕ → Type 0
IsPlain = All (λ c. c ≢ 0)

pub record IsName (name : List ℕ) : Type 0 where
  pub is_word : IsWord name
  pub plain : IsPlain name

c_str-plain : (s : List ℕ) → IsPlain s → c_str s ≡ s
unfolding c_str
c_str-plain [] p = refl
c_str-plain (c ∷ cs) (first, more) =
    let other : (c == 0) ≡ false = ground arith in rw other (ap (λ r. c ∷ r) (c_str-plain cs more))

-- Where a break comes, the word is over.
split_word :
    (w v rest tail : List ℕ)
    → All (λ c. is_space c ≡ false) w
    → All (λ c. is_space c ≡ false) v
    → IsBreak rest
    → IsBreak tail
    → w ++ rest ≡ v ++ tail
    → (w ≡ v) × (rest ≡ tail)
split_word w v rest tail visible visible' b b' e = (
  sym (word-append w rest visible b) ∙ (ap word e ∙ word-append v tail visible' b'),
  sym (after_word-append w rest visible b)
      ∙ (ap after_word e ∙ after_word-append v tail visible' b'),
)

last_equal : (c : ℕ) (xs ys : List ℕ) → xs ++ (c ∷ []) ≡ ys ++ (c ∷ []) → xs ≡ ys
last_equal c xs ys e =
    let same : length xs ≡ length ys =
      omega (arith, ap length e, length-append xs (c ∷ []), length-append ys (c ∷ [])) in
    sym (take_front (length xs) xs (c ∷ []) refl)
    ∙ (ap (take (length xs)) e ∙ take_front (length xs) ys (c ∷ []) (sym same))

visible_colon :
    (name : List ℕ)
    → All (λ c. is_space c ≡ false) name
    → All (λ c. is_space c ≡ false) (name ++ (58 ∷ []))
unfolding is_space
visible_colon [] v = (refl, tt)
visible_colon (c ∷ cs) (first, more) = (first, visible_colon cs more)

-- A name, and what is said after it.
name_said :
    (n k m l : List ℕ)
    → IsName n
    → IsName k
    → n ++ said_text m ≡ k ++ said_text l
    → (n ≡ k) × (m ≡ l)
unfolding is_space
name_said n k m l hn hk e =
    let (names, texts) =
      split_word (n ++ (58 ∷ [])) (k ++ (58 ∷ [])) (32 ∷ (m ++ (10 ∷ []))) (32 ∷ (l ++ (10 ∷ [])))
        (visible_colon n hn.is_word.visible) (visible_colon k hk.is_word.visible) refl refl
        (append_assoc n (58 ∷ []) _ ∙ (e ∙ sym (append_assoc k (58 ∷ []) _))) in
    (last_equal 58 n k names, last_equal 10 m l (ap (drop 1) texts))

-- Nobody in particular, or a user.
pub data IsRecipient : List ℕ → Type 0 where
  everybody : IsRecipient []
  someone : {name : List ℕ} → IsName name → IsRecipient name

-- `print_chat_message`, when no `%s` is cut short.
to_everybody :
    (s m : List ℕ)
    → IsName s
    → IsPlain m
    → print_chat_message s [] m ≡ global_tag ++ (s ++ said_text m)
unfolding print_chat_message
to_everybody s m hs hm = rw (c_str-plain s hs.plain, c_str-plain m hm) refl

to_someone :
    (s r m : List ℕ)
    → IsName s
    → IsName r
    → IsPlain m
    → print_chat_message s r m ≡ dm_tag ++ (s ++ (to_tag ++ (r ++ said_text m)))
unfolding print_chat_message
to_someone s [] m hs hr hm = absurd (hr.is_word.some_byte refl)
to_someone s (c ∷ cs) m hs hr hm =
    rw (c_str-plain s hs.plain, c_str-plain (c ∷ cs) hr.plain, c_str-plain m hm) refl

-- The mark in front tells a private message from one to all.
not_everybody :
    (s r m k l : List ℕ)
    → IsName s
    → IsName r
    → IsName k
    → IsPlain m
    → IsPlain l
    → print_chat_message s r m ≢ print_chat_message k [] l
not_everybody s r m k l hs hr hk hm hl e =
    let firsts : dm_tag ++ (s ++ (to_tag ++ (r ++ said_text m)))
        ≡ global_tag ++ (k ++ said_text l) =
      sym (to_someone s r m hs hr hm) ∙ (e ∙ to_everybody k l hk hl) in
    let seconds : 68 ≡ 71 = ap (λ t. get_or t 1 0) firsts in omega (arith, seconds)

both_everybody :
    (s m k l : List ℕ)
    → IsName s
    → IsName k
    → IsPlain m
    → IsPlain l
    → print_chat_message s [] m ≡ print_chat_message k [] l
    → (s ≡ k) × (m ≡ l)
both_everybody s m k l hs hk hm hl e =
    name_said s k m l hs hk
      (ap (drop 9) (sym (to_everybody s m hs hm) ∙ (e ∙ to_everybody k l hk hl)))

both_someone :
    (s r m k q l : List ℕ)
    → IsName s
    → IsName r
    → IsName k
    → IsName q
    → IsPlain m
    → IsPlain l
    → print_chat_message s r m ≡ print_chat_message k q l
    → (s ≡ k) × ((r ≡ q) × (m ≡ l))
unfolding is_space
both_someone s r m k q l hs hr hk hq hm hl e =
    let texts : s ++ (to_tag ++ (r ++ said_text m)) ≡ k ++ (to_tag ++ (q ++ said_text l)) =
      ap (drop 5) (sym (to_someone s r m hs hr hm) ∙ (e ∙ to_someone k q l hk hq hl)) in
    let (senders, others) =
      split_word s k (to_tag ++ (r ++ said_text m)) (to_tag ++ (q ++ said_text l))
        hs.is_word.visible hk.is_word.visible refl refl texts in
    (senders, name_said r q m l hr hq (ap (drop 4) others))

-- Two chat messages that are printed alike have the same sender, the same recipient and the same
-- text, when every sender is a name (one word with no zero byte), every recipient is empty or a
-- name, and no text has a zero byte.
pub print_chat_message_distinct :
    (s r m k q l : List ℕ)
    → IsName s
    → IsRecipient r
    → IsName k
    → IsRecipient q
    → IsPlain m
    → IsPlain l
    → print_chat_message s r m ≡ print_chat_message k q l
    → (s ≡ k) × ((r ≡ q) × (m ≡ l))
print_chat_message_distinct s _ m k _ l hs everybody hk everybody hm hl e =
    let (senders, texts) = both_everybody s m k l hs hk hm hl e in (senders, (refl, texts))
print_chat_message_distinct s _ m k q l hs everybody hk (someone hq) hm hl e =
    absurd (not_everybody k q l s m hk hq hs hl hm (sym e))
print_chat_message_distinct s r m k _ l hs (someone hr) hk everybody hm hl e =
    absurd (not_everybody s r m k l hs hr hk hm hl e)
print_chat_message_distinct s r m k q l hs (someone hr) hk (someone hq) hm hl e =
    both_someone s r m k q l hs hr hk hq hm hl e
