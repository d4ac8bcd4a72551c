-- ===== src/Client/Texts.antt =====
-- What the client prints for a chat message: `print_chat_message` of src/client_utils.cpp.
pub mod Distinct
use tcp_chat_server.Prelude.{ℕ, List, [], ◌∷◌, ◌++◌, if◌then◌else◌}
use tcp_chat_server.Database.{c_str}
use tcp_chat_server.Client.Shell.{is_nil}

-- "[GLOBAL] ".
abbrev pub global_tag : List ℕ
global_tag = 91 ∷ 71 ∷ 76 ∷ 79 ∷ 66 ∷ 65 ∷ 76 ∷ 93 ∷ 32 ∷ []

-- "[DM] ".
abbrev pub dm_tag : List ℕ
dm_tag = 91 ∷ 68 ∷ 77 ∷ 93 ∷ 32 ∷ []

-- " to ".
abbrev pub to_tag : List ℕ
to_tag = 32 ∷ 116 ∷ 111 ∷ 32 ∷ []

-- ": %s\n".
abbrev pub said_text : List ℕ → List ℕ
said_text message = 58 ∷ 32 ∷ (message ++ (10 ∷ []))

-- The bytes that `printf` writes: `%s` ends at a zero byte.
unfoldable pub print_chat_message : List ℕ → List ℕ → List ℕ → List ℕ
print_chat_message sender recipient message =
    if is_nil recipient
    then global_tag ++ (c_str sender ++ said_text (c_str message))
    else dm_tag ++ (c_str sender ++ (to_tag ++ (c_str recipient ++ said_text (c_str message))))
