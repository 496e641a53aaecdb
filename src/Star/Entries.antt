-- ===== src/Star/Entries.antt =====
-- lab6/others/Star/src: the chunks of client.cpp, and what server.cpp has of them.
use inp.Common.{
  ℕ, suc, ◌+◌, ◌-◌, ◌*◌, ◌≤◌, ◌<◌, ◌≡◌, ◌≢◌, ◌⊎◌, inl, inr, refl, ap, [], ◌∷◌, none, ltb, ◌==◌,
  length, take, drop, replicate, length-append, length-take, length-replicate, Bool-cases, ltb→lt,
  arith,
}
use inp.Common.Bytes.{Bytes}
use inp.Common.Maps.{Map, lookup, insert}
use inp.Star.{chunk_size, padded}

-- What the packet of chunk `k` carries.
unfoldable pub piece : Bytes → ℕ → Bytes
piece comp k = padded (take chunk_size (drop ((k - 1) * chunk_size) comp))

pub length-piece : (comp : Bytes) (k : ℕ) → length (piece comp k) ≡ chunk_size
unfolding piece padded
length-piece comp k =
    let buf = take chunk_size (drop ((k - 1) * chunk_size) comp) in
    omega (
      arith,
      length-take chunk_size (drop ((k - 1) * chunk_size) comp),
      length-append buf (replicate (chunk_size - length buf) 0),
      length-replicate {A = ℕ} (chunk_size - length buf) 0,
    )

-- A chunk that the client has: its number and what it carries.
unfoldable pub IsChunk : Bytes → ℕ → Type 0
IsChunk comp k = (1 ≤ k) × ((k - 1) * chunk_size < length comp)

-- Chunks in the order of their numbers, none of them below `lo`.
unfoldable pub Entries : Bytes → ℕ → Map Bytes → Type 0
Entries comp lo [] = Unit
Entries comp lo ((k, v) ∷ m) =
    (lo ≤ k) × IsChunk comp k × (v ≡ piece comp k) × Entries comp (suc k) m

pub Entries-insert :
    (comp : Bytes) (lo k : ℕ) (m : Map Bytes)
    → Entries comp lo m
    → lo ≤ k
    → IsChunk comp k
    → lookup k m ≡ none
    → Entries comp lo (insert k (piece comp k) m)
      × (length (insert k (piece comp k) m) ≡ suc (length m))
unfolding Entries insert lookup
Entries-insert comp lo k [] h low chunk absent = ((low, chunk, refl, tt), refl)
Entries-insert comp lo k ((j, w) ∷ m) h low chunk absent = elim (Bool-cases (ltb k j)) [
  | inl below ↦ rw below ((low, chunk, refl, (ltb→lt k j below, h.1, h.2, h.3)), refl)
  | inr above ↦ elim (Bool-cases (j == k)) [
    | inl same ↦ absurd (ground (arith, absent, same))
    | inr other ↦
        let still : lookup k m ≡ none = ground (arith, absent, other) in
        let next : suc j ≤ k = ground (arith, above, other) in
        let later = Entries-insert comp (suc j) k m h.3 next chunk still in
        rw (above, other) ((h.0, h.1, h.2, later.0), ap suc later.1)
  ]
]

-- The number of the last chunk is at least as high as their count tells.
pub length-Entries :
    (comp : Bytes) (lo : ℕ) (m : Map Bytes)
    → 1 ≤ lo
    → Entries comp lo m
    → (m ≡ []) ⊎ ((lo + length m - 2) * chunk_size < length comp)
unfolding Entries IsChunk
length-Entries comp lo [] low h = inl refl
length-Entries comp lo ((k, v) ∷ m) low h = elim (length-Entries comp (suc k) m (omega arith) h.3) [
  | inl e ↦ inr (rw e (omega (arith, h.0, h.1.1)))
  | inr more ↦ inr (omega (arith, more, h.0))
]

lookup_below :
    (comp : Bytes) (lo k : ℕ) (m : Map Bytes) → Entries comp lo m → k < lo → lookup k m ≡ none
unfolding Entries lookup
lookup_below comp lo k [] h low = refl
lookup_below comp lo k ((j, w) ∷ m) h low =
    ground (arith, h.0, lookup_below comp (suc j) k m h.3 (omega (arith, h.0)))

-- When no chunk is missing their count covers the stream.
pub length-Entries_all :
    (comp : Bytes) (lo : ℕ) (m : Map Bytes)
    → 1 ≤ lo
    → Entries comp lo m
    → ((k : ℕ) → lo ≤ k → IsChunk comp k → lookup k m ≢ none)
    → length comp ≤ (lo - 1 + length m) * chunk_size
unfolding Entries lookup IsChunk
length-Entries_all comp lo [] low h all =
    elim (Bool-cases (ltb ((lo - 1) * chunk_size) (length comp))) [
      | inl more ↦ absurd (all lo (omega arith) (low, ltb→lt _ _ more) refl)
      | inr done ↦ ground (arith, done)
    ]
length-Entries_all comp lo ((k, v) ∷ m) low h all =
    elim (Bool-cases (ltb ((lo - 1) * chunk_size) (length comp))) [
      | inr done ↦ ground (arith, done)
      | inl more ↦ elim (Bool-cases (k == lo)) [
        | inl same ↦
            let equal : k ≡ lo = ground (arith, same) in
            let others =
              λ (j : ℕ) (above : suc k ≤ j) (chunk : IsChunk comp j) (absent : lookup j m ≡ none).
                all j (omega arith) chunk (ground (arith, above, absent)) in
            let later = length-Entries_all comp (suc k) m (omega arith) h.3 others in
            omega (arith, later, equal)
        | inr other ↦
            let above : lo < suc k = omega (arith, h.0) in
            absurd (
              all lo (omega arith) (low, ltb→lt _ _ more)
                (ground (arith, other, lookup_below comp (suc k) lo m h.3 above)))
      ]
    ]
