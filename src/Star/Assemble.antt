-- ===== src/Star/Assemble.antt =====
-- lab6/others/Star/src/server.cpp: `save_to_file` puts the chunks together.
use inp.Common.{
  ℕ, zero, suc, ◌+◌, ◌-◌, ◌*◌, ◌≤◌, ◌<◌, ◌≡◌, ◌≢◌, inl, inr, refl, sym, ap, ◌∙◌, true, false, [],
  ◌∷◌, ◌++◌, some, leb, ◌==◌, length, take, drop, replicate, length-append, length-take,
  length-drop, take-append-drop, le_or_gt, take_all, take-append, append_nil, arith,
}
use inp.Common.Bytes.{Bytes}
use inp.Common.Text.{replace}
use inp.Common.Maps.{Map}
use mathlib.Core.List.{append_assoc}
use inp.Star.{chunk_size, padded}
use inp.Star.Server.{assemble, buffer_size}
use inp.Star.Entries.{piece, length-piece, Entries, IsChunk, length-Entries}

drop_nil : (n : ℕ) → drop {A = ℕ} n [] ≡ []
drop_nil zero = refl
drop_nil (suc n) = refl

drop-drop : (a b : ℕ) (xs : Bytes) → drop a (drop b xs) ≡ drop (b + a) xs
drop-drop a zero xs = let same : a ≡ 0 + a = omega arith in ap (λ n. drop n xs) same
drop-drop a (suc b) [] = drop_nil a ∙ sym (drop_nil (suc b + a))
drop-drop a (suc b) (x ∷ xs) =
    let shift : suc b + a ≡ suc (b + a) = omega arith in rw shift (drop-drop a b xs)

drop-append_more : (n : ℕ) (xs ys : Bytes) → drop (length xs + n) (xs ++ ys) ≡ drop n ys
drop-append_more n [] ys = ap (λ k. drop k ys) (omega arith)
drop-append_more n (x ∷ xs) ys =
    let shift : suc (length xs) + n ≡ suc (length xs + n) = omega arith in
    rw shift (drop-append_more n xs ys)

take-append_more :
    (n : ℕ) (xs ys : Bytes) → length xs ≤ n → take n (xs ++ ys) ≡ xs ++ take (n - length xs) ys
take-append_more n [] ys h = ap (λ k. take k ys) (omega arith)
take-append_more zero (x ∷ xs) ys h = absurd (omega arith)
take-append_more (suc n) (x ∷ xs) ys h =
    let shift : n - length xs ≡ suc n - suc (length xs) = omega arith in
    ap (◌∷◌ x) (take-append_more n xs ys (omega arith) ∙ ap (λ k. xs ++ take k ys) shift)

replace-append :
    (n : ℕ) (xs ys t : Bytes) → replace (xs ++ ys) (length xs) n t ≡ xs ++ (t ++ drop n ys)
unfolding replace
replace-append n xs ys t = rw (take-append xs ys, drop-append_more n xs ys) refl

-- The chunks of a stream, one behind the other.
unfoldable pub slices : ℕ → Bytes → Bytes
slices zero stream = []
slices (suc n) stream = padded (take chunk_size stream) ++ slices n (drop chunk_size stream)

slices_short :
    (stream rest : Bytes)
    → length stream ≤ chunk_size
    → take (length stream) (padded (take chunk_size stream) ++ rest) ≡ stream
unfolding padded
slices_short stream rest h =
    let pad : Bytes = replicate (chunk_size - length stream) 0 in
    rw (take_all chunk_size stream h, append_assoc stream pad rest)
      (take-append stream (pad ++ rest))

pub length-take_full :
    (stream : Bytes) → chunk_size ≤ length stream → length (take chunk_size stream) ≡ chunk_size
length-take_full stream h = omega (arith, length-take chunk_size stream)

pub padded_full : (buf : Bytes) → length buf ≡ chunk_size → padded buf ≡ buf
unfolding padded
padded_full buf full = rw full (append_nil buf)

slices_long :
    (stream rest : Bytes)
    → chunk_size ≤ length stream
    → take (length (drop chunk_size stream)) rest ≡ drop chunk_size stream
    → take (length stream) (padded (take chunk_size stream) ++ rest) ≡ stream
slices_long stream rest h later =
    let first = take chunk_size stream in
    let full = length-take_full stream h in
    let fits : length first ≤ length stream = omega (arith, full) in
    let left : length stream - length first ≡ length (drop chunk_size stream) =
      omega (arith, full, length-drop chunk_size stream) in
    rw (padded_full first full, take-append_more (length stream) first rest fits, left, later)
      (take-append-drop chunk_size stream)

-- A stream that they cover is what they begin with.
pub take-slices :
    (n : ℕ) (stream : Bytes)
    → length stream ≤ n * chunk_size
    → take (length stream) (slices n stream) ≡ stream
unfolding slices
take-slices zero [] h = refl
take-slices zero (x ∷ stream) h = absurd (omega arith)
take-slices (suc n) stream h =
    let rest = slices n (drop chunk_size stream) in
    let left : length (drop chunk_size stream) ≤ n * chunk_size =
      omega (arith, length-drop chunk_size stream) in
    elim (le_or_gt (length stream) chunk_size) [
      | inl short ↦ slices_short stream rest short
      | inr more ↦
          slices_long stream rest (omega arith) (take-slices n (drop chunk_size stream) left)
    ]

no_bytes : (xs : Bytes) → length xs ≡ 0 → xs ≡ []
no_bytes [] h = refl
no_bytes (x ∷ xs) h = absurd (omega arith)

pub ne→== : {a b : ℕ} → a ≢ b → (a == b) ≡ false
ne→== h = ground arith

pub lt→leb : {a b : ℕ} → a ≤ b → leb a b ≡ true
lt→leb h = ground arith

-- When the chunks cover the stream, the first is the next one.
first_is :
    (comp : Bytes) (lo k : ℕ) (v : Bytes) (m : Map Bytes)
    → 1 ≤ lo
    → Entries comp lo ((k, v) ∷ m)
    → length comp ≤ (lo - 1 + suc (length m)) * chunk_size
    → k ≡ lo
unfolding Entries IsChunk
first_is comp lo k v m low h covers = elim (length-Entries comp (suc k) m (omega arith) h.3) [
  | inl none_left ↦
      let zero_left : length m ≡ 0 = ap length none_left in
      omega (arith, zero_left, covers, h.0, h.1, low)
  | inr more ↦ omega (arith, more, covers, h.0, low)
]

regroup :
    (comp : Bytes) (lo k : ℕ) (v before : Bytes) (n : ℕ)
    → k ≡ lo
    → 1 ≤ lo
    → v ≡ piece comp k
    → (before ++ v) ++ slices n (drop ((suc k - 1) * chunk_size) comp)
      ≡ before ++ slices (suc n) (drop ((lo - 1) * chunk_size) comp)
unfolding slices piece
regroup comp lo k v before n first low e =
    let at : (suc k - 1) * chunk_size ≡ (lo - 1) * chunk_size + chunk_size =
      omega (arith, first, low) in
    let from : (k - 1) * chunk_size ≡ (lo - 1) * chunk_size = omega (arith, first) in
    rw
      (
        append_assoc before v (slices n (drop ((suc k - 1) * chunk_size) comp)),
        at,
        ← drop-drop chunk_size ((lo - 1) * chunk_size) comp,
        e,
        from,
      )
      refl

-- The loop over the chunks, from the place that it has reached.
assemble_lem :
    (comp : Bytes) (lo : ℕ) (m : Map Bytes) (before after : Bytes)
    → 1 ≤ lo
    → Entries comp lo m
    → length before ≡ (lo - 1) * chunk_size
    → length after ≡ length m * chunk_size
    → length comp ≤ (lo - 1 + length m) * chunk_size
    → assemble (before ++ after) m
      ≡ some (before ++ slices (length m) (drop ((lo - 1) * chunk_size) comp))
unfolding assemble slices Entries
assemble_lem comp lo [] before after low h at size covers = rw (no_bytes after size) refl
assemble_lem comp lo ((k, v) ∷ m) before after low h at size covers =
    let first = first_is comp lo k v m low h covers in
    let place : (k - 1) * chunk_size ≡ length before = omega (arith, first, at) in
    let room : leb (k * chunk_size) (length (before ++ after)) ≡ true =
      lt→leb (omega (arith, length-append before after, at, size, first)) in
    let nonzero : (k == 0) ≡ false = ne→== (omega (arith, first, low)) in
    let size_v : length v ≡ chunk_size = rw h.2 (length-piece comp k) in
    let later =
      assemble_lem comp (suc k) m (before ++ v) (drop chunk_size after) (omega arith) h.3
        (omega (arith, length-append before v, size_v, at, first, low))
        (omega (arith, length-drop chunk_size after, size)) (omega (arith, covers, first)) in
    let same = regroup comp lo k v before (length m) first low h.2 in
    rw (nonzero, room, place, replace-append chunk_size before after v)
      (ap (λ b. assemble b m) (sym (append_assoc before v (drop chunk_size after)))
        ∙ (later ∙ ap some same))

-- When the chunks cover the stream, a buffer of the size that the server asks for holds them after the
-- loop, whatever it held before.
pub assemble-slices :
    (comp : Bytes) (m : Map Bytes) (memory : Bytes)
    → 1 ≤ length comp
    → Entries comp 1 m
    → length comp ≤ length m * chunk_size
    → length memory ≡ buffer_size (length comp)
    → (length memory ≡ length m * chunk_size)
      × (length m * chunk_size < length comp + chunk_size)
      × (assemble memory m ≡ some (slices (length m) comp))
unfolding buffer_size
assemble-slices comp m memory some_bytes h covers size =
    elim (length-Entries comp 1 m (omega arith) h) [
      | inl e ↦
          let none_here : length m ≡ 0 = ap length e in
          absurd (omega (arith, none_here, covers, some_bytes))
      | inr count ↦
          let fits : length memory ≡ length m * chunk_size =
            omega (arith, size, count, covers, some_bytes) in
          (
            fits,
            omega (arith, count),
            assemble_lem comp 1 m [] memory (omega arith) h refl fits (omega (arith, covers)),
          )
    ]

-- The stream is what the buffer then begins with.
pub assemble-stream :
    (comp : Bytes) (m : Map Bytes) (memory : Bytes)
    → 1 ≤ length comp
    → Entries comp 1 m
    → length comp ≤ length m * chunk_size
    → length memory ≡ buffer_size (length comp)
    → (whole : Bytes) × (assemble memory m ≡ some whole) × (take (length comp) whole ≡ comp)
assemble-stream comp m memory some_bytes h covers size = (
  slices (length m) comp,
  (assemble-slices comp m memory some_bytes h covers size).2,
  take-slices (length m) comp covers,
)
