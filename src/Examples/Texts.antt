-- ===== src/Examples/Texts.antt =====
-- A private message on the screen.
use tcp_chat_server.Prelude.{◌≡◌, refl, ℕ, List, [], ◌∷◌, ◌++◌, arith}
use tcp_chat_server.Client.Words.{is_space}
use tcp_chat_server.Database.{c_str}
use tcp_chat_server.Client.Texts.{print_chat_message}
use tcp_chat_server.Client.Texts.Distinct.{IsName, IsPlain, someone, print_chat_message_distinct}

-- "al", "bo" and "hi you".
abbrev al : List ℕ
al = 97 ∷ 108 ∷ []

abbrev bo : List ℕ
bo = 98 ∷ 111 ∷ []

abbrev hi_you : List ℕ
hi_you = 104 ∷ 105 ∷ 32 ∷ 121 ∷ 111 ∷ 117 ∷ []

al-IsName : IsName al
unfolding is_space
al-IsName = record {
  is_word = record { visible = (refl, (refl, tt)); some_byte = λ e. cc };
  plain = (omega arith, (omega arith, tt));
}

bo-IsName : IsName bo
unfolding is_space
bo-IsName = record {
  is_word = record { visible = (refl, (refl, tt)); some_byte = λ e. cc };
  plain = (omega arith, (omega arith, tt));
}

hi_you-IsPlain : IsPlain hi_you
hi_you-IsPlain = ground arith

-- "[DM] al to bo: hi you".
printed :
    print_chat_message al bo hi_you
    ≡ 91
      ∷ 68
      ∷ 77
      ∷ 93
      ∷ 32
      ∷ (al ++ (32 ∷ 116 ∷ 111 ∷ 32 ∷ (bo ++ (58 ∷ 32 ∷ (hi_you ++ (10 ∷ []))))))
unfolding print_chat_message c_str
printed = refl

print_chat_message_distinct_example : (al ≡ al) × ((bo ≡ bo) × (hi_you ≡ hi_you))
print_chat_message_distinct_example =
    print_chat_message_distinct al bo hi_you al bo hi_you al-IsName (someone bo-IsName) al-IsName
      (someone bo-IsName) hi_you-IsPlain hi_you-IsPlain refl
