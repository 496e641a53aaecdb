-- ===== src/Chat/Filter.antt =====
-- homework2/server.cpp: the loop by which `setPinMessage` and `sendMessage` mask the filtered words.
mod Split
pub mod Masks
pub mod Masked
use inp.Common.{ℕ, zero, suc, List, [], ◌∷◌, map, none, some, length, replicate}
use inp.Common.Bytes.{Bytes, text}
use inp.Chat.Result.{Result, ok, err, no_end, ◌>>=◌}
use inp.Common.Text.{to_lower, find, replace}

-- `*`
abbrev pub star : ℕ
star = 42

abbrev pub stars : Bytes → Bytes
stars word = replicate (length word) star

-- A message beside its copy in lower case.
pub record Draft : Type 0 where
  pub message : Bytes
  pub message_lower : Bytes

abbrev pub mask_at : Bytes → ℕ → Draft → Draft
mask_at word pos d = record {
  message = replace d.message pos (length word) (stars word);
  message_lower = replace d.message_lower pos (length word) (stars word);
}

-- The `while (pos != npos)` loop for one word in lower case.
unfoldable pub mask_word : ℕ → Bytes → Draft → Result Draft
mask_word zero word d = err no_end
mask_word (suc fuel) word d = elim (find word d.message_lower) [
  | none ↦ ok d
  | some pos ↦ mask_word fuel word (mask_at word pos d)
]

-- The loop over the filter list. A draft of `n` bytes needs `n + 1` rounds for each word.
unfoldable pub mask_words : List Bytes → Draft → Result Draft
unfolding mask_word
mask_words [] d = ok d
mask_words (word ∷ words) d =
    mask_word (suc (length d.message)) (map to_lower word) d >>= mask_words words

unfoldable pub censor : List Bytes → Bytes → Result Bytes
unfolding mask_words
censor filter_list message = do
  d ← mask_words filter_list (record { message = message; message_lower = map to_lower message })
  ok d.message

-- The words that the constructor of homework2/chatroom.cpp lists.
unfoldable pub filter_words : List Bytes
filter_words =
    text "=="
    ∷ text "Superpie"
    ∷ text "hello"
    ∷ text "Starburst Stream"
    ∷ text "Domain Expansion"
    ∷ []
