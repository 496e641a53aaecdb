-- ===== src/Chat/Filter/Masked.antt =====
-- The masking loops end, and leave none of the filtered words in the text.
use inp.Common.{
  ℕ, zero, suc, ◌+◌, ◌≤◌, ◌<◌, ◌≡◌, ◌≢◌, refl, ap, inl, inr, List, [], ◌∷◌, ◌++◌, map, none, arith,
  length, replicate, All, All-map, length-append, ◌==◌, Option-cases, if◌then◌else◌,
}
use inp.Common.Bytes.{Bytes, text}
use inp.Chat.Result.{ok}
use inp.Common.Text.{to_lower, find, replace}
use inp.Chat.Filter.{star, stars, Draft, mask_at, mask_word, mask_words, censor, filter_words}
use inp.Chat.Filter.Split.{At, find-At, find-none, replace-At, map-replace, split_at}
use inp.Chat.Filter.Masks.{Masks, Masks-refl, Masks-trans, IsStarFree, find-Masks}

-- How many bytes are no stars.
visible : Bytes → ℕ
visible [] = 0
visible (c ∷ s) = if c == star then visible s else suc (visible s)

visible-append : (xs ys : Bytes) → visible (xs ++ ys) ≡ visible xs + visible ys
unfolding visible
visible-append [] ys = omega arith
visible-append (x ∷ xs) ys = ground (arith, visible-append xs ys)

visible-stars : (n : ℕ) → visible (replicate n star) ≡ 0
unfolding visible
visible-stars zero = refl
visible-stars (suc n) = visible-stars n

visible-StarFree : (w : Bytes) → IsStarFree w → visible w ≡ length w
unfolding visible
visible-StarFree [] h = refl
visible-StarFree (c ∷ w) h = ground (arith, visible-StarFree w h.1)

visible-le-length : (s : Bytes) → visible s ≤ length s
unfolding visible
visible-le-length [] = omega arith
visible-le-length (c ∷ s) = ground (arith, visible-le-length s)

-- Masking a word without stars takes its bytes off the visible ones.
visible-replace :
    (w s : Bytes) (place : ℕ)
    → IsStarFree w
    → At w place s
    → visible (replace s place (length w) (stars w)) + length w ≡ visible s
visible-replace w s place f (before, after, e, len) =
    rw (e, ← len, replace-At before w after (stars w))
      (omega (
        arith,
        visible-append before (stars w ++ after),
        visible-append (stars w) after,
        visible-append before (w ++ after),
        visible-append w after,
        visible-stars (length w),
        visible-StarFree w f,
      ))

Masks-stars :
    (before word after : Bytes)
    → Masks (before ++ (word ++ after)) (before ++ (stars word ++ after))
Masks-stars [] [] after = Masks-refl after
Masks-stars [] (w ∷ word) after = (inr refl, Masks-stars [] word after)
Masks-stars (b ∷ before) word after = (inl refl, Masks-stars before word after)

Masks-replace :
    (s : Bytes) (place n : ℕ)
    → place + n ≤ length s
    → Masks s (replace s place n (replicate n star))
Masks-replace s place n h =
    let (before, word, after, e, p, q) = split_at place n s h in
    rw (← p, ← q, e, replace-At before word after (stars word)) (Masks-stars before word after)

Masks-map-to_lower : (xs ys : Bytes) → Masks xs ys → Masks (map to_lower xs) (map to_lower ys)
unfolding to_lower
Masks-map-to_lower [] [] h = tt
Masks-map-to_lower [] (y ∷ ys) h = elim h [ ]
Masks-map-to_lower (x ∷ xs) [] h = elim h [ ]
Masks-map-to_lower (x ∷ xs) (y ∷ ys) (inl e, h) = (inl (ap to_lower e), Masks-map-to_lower xs ys h)
Masks-map-to_lower (x ∷ xs) (y ∷ ys) (inr e, h) = (inr (ap to_lower e), Masks-map-to_lower xs ys h)

map-to_lower-stars : (n : ℕ) → map to_lower (replicate n star) ≡ replicate n star
unfolding to_lower
map-to_lower-stars zero = refl
map-to_lower-stars (suc n) = ap (◌∷◌ star) (map-to_lower-stars n)

length-map-to_lower : (s : Bytes) → length (map to_lower s) ≡ length s
length-map-to_lower [] = refl
length-map-to_lower (c ∷ s) = ap suc (length-map-to_lower s)

-- A word in lower case that the loop can take: it has a byte, and none is a star.
abbrev pub IsMaskable : Bytes → Type 0
IsMaskable word = (word ≢ []) × IsStarFree word

-- The two texts of a draft stay copies of each other.
abbrev IsDraft : Draft → Type 0
IsDraft d = d.message_lower ≡ map to_lower d.message

mask_at-IsDraft :
    (word : Bytes) (place : ℕ) (d : Draft) → IsDraft d → IsDraft (mask_at word place d)
mask_at-IsDraft word place d h = rw (
  h,
  map-replace to_lower d.message place (length word) (stars word),
  map-to_lower-stars (length word),
)

mask_at-Masks :
    (word : Bytes) (place : ℕ) (d : Draft)
    → IsDraft d
    → At word place d.message_lower
    → Masks d.message (mask_at word place d).message
mask_at-Masks word place d h (before, after, e, len) = Masks-replace d.message place (length word) (
    omega (
      arith,
      ap length e,
      ap length h,
      length-map-to_lower d.message,
      length-append before (word ++ after),
      length-append word after,
    ))

mask_at-visible :
    (word : Bytes) (place fuel : ℕ) (d : Draft)
    → IsMaskable word
    → At word place d.message_lower
    → visible d.message_lower < suc fuel
    → visible (mask_at word place d).message_lower < fuel
mask_at-visible [] place fuel d (ne, f) at h = absurd (ne refl)
mask_at-visible (c ∷ word) place fuel d (ne, f) at h =
    omega (arith, visible-replace (c ∷ word) d.message_lower place f at)

-- What masking a word makes of a draft.
abbrev Done : Bytes → Draft → Draft → Type 0
Done word d d' = IsDraft d' × Masks d.message d'.message × (find word d'.message_lower ≡ none)

mask_word_total :
    (fuel : ℕ) (word : Bytes) (d : Draft)
    → IsMaskable word
    → IsDraft d
    → visible d.message_lower < fuel
    → (d' : Draft) × (mask_word fuel word d ≡ ok d') × Done word d d'
unfolding mask_word
mask_word_total zero word d m h lt = elim lt [ ]
mask_word_total (suc fuel) word d m h lt = elim (Option-cases (find word d.message_lower)) [
  | inl e ↦ (d, rw (e, mask_word), (h, Masks-refl d.message, e))
  | inr (place, e) ↦
      let at = find-At word d.message_lower place e in
      let d₁ = mask_at word place d in
      let (d', run, (h', masks, gone)) =
        mask_word_total fuel word d₁ m (mask_at-IsDraft word place d h)
          (mask_at-visible word place fuel d m at lt) in
      (
        d',
        rw (e, mask_word) run,
        (
          h',
          Masks-trans d.message d₁.message d'.message (mask_at-Masks word place d h at) masks,
          gone,
        ),
      )
]

-- All filtered words can be masked, and none is left in a text.
abbrev pub IsFilter : List Bytes → Type 0
IsFilter = All (λ word. IsMaskable (map to_lower word))

abbrev Gone : List Bytes → Draft → Type 0
Gone words d = All (λ word. find (map to_lower word) d.message_lower ≡ none) words

mask_words_total :
    (words : List Bytes) (d : Draft)
    → IsFilter words
    → IsDraft d
    → (d' : Draft) × (mask_words words d ≡ ok d')
      × IsDraft d'
      × Masks d.message d'.message
      × Gone words d'
unfolding mask_words
mask_words_total [] d f h = (d, refl, h, Masks-refl d.message, tt)
mask_words_total (word ∷ words) d f h =
    let w = map to_lower word in
    let (d₁, run₁, (h₁, masks₁, gone₁)) = mask_word_total (suc (length d.message)) w d f.0 h (
      omega
        (arith, visible-le-length d.message_lower, ap length h, length-map-to_lower d.message)) in
    let (d₂, run₂, h₂, masks₂, gone₂) = mask_words_total words d₁ f.1 h₁ in
    let lower : Masks d₁.message_lower d₂.message_lower =
      rw (h₁, h₂) (Masks-map-to_lower d₁.message d₂.message masks₂) in
    (
      d₂,
      rw run₁ run₂,
      h₂,
      Masks-trans d.message d₁.message d₂.message masks₁ masks₂,
      (find-Masks w d₁.message_lower d₂.message_lower f.0.1 lower gone₁, gone₂),
    )

-- The word stands nowhere in the text, in whatever case.
abbrev pub IsHidden : Bytes → Bytes → Type 0
IsHidden out word =
    (before after : Bytes) → map to_lower out ≢ before ++ (map to_lower word ++ after)

Gone-IsHidden :
    (words : List Bytes) (d : Draft) → IsDraft d → Gone words d → All (IsHidden d.message) words
Gone-IsHidden words d h =
    All-map (λ word. find (map to_lower word) d.message_lower ≡ none) (IsHidden d.message) words
      λ word gone before after.
        find-none (map to_lower word) (map to_lower d.message) before after (rw (← h) gone)

-- With words that have bytes and no stars the masking loops end; each byte of the result is the
-- message's own or a star; and none of the words stands in the result, in whatever case.
pub censor_hides :
    (words : List Bytes) (message : Bytes)
    → IsFilter words
    → (out : Bytes) × (censor words message ≡ ok out) × Masks message out × All (IsHidden out) words
unfolding censor
censor_hides words message f =
    let (d, run, h, masks, gone) =
      mask_words_total words (record { message = message; message_lower = map to_lower message }) f
        refl in
    (d.message, rw run, masks, Gone-IsHidden words d h gone)

mask_words_none : (words : List Bytes) (d : Draft) → Gone words d → mask_words words d ≡ ok d
unfolding mask_words mask_word
mask_words_none [] d h = refl
mask_words_none (word ∷ words) d h = rw (h.0, mask_words, mask_word) (mask_words_none words d h.1)

-- A message in which no filtered word is found is passed on as it is.
pub censor_clean :
    (words : List Bytes) (message : Bytes)
    → All (λ word. find (map to_lower word) (map to_lower message) ≡ none) words
    → censor words message ≡ ok message
unfolding censor
censor_clean words message h =
    rw
      (mask_words_none words (record { message = message; message_lower = map to_lower message }) h)

pub filter_words-IsFilter : IsFilter filter_words
unfolding filter_words text to_lower
filter_words-IsFilter = ground arith
