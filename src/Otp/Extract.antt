-- ===== src/Otp/Extract.antt =====
-- What the extraction of lab4/lab4.cpp finds.
use inp.Common.{ℕ, ◌≡◌, refl, ◌∙◌, true, false, [], ◌∷◌, ◌++◌, none, some, arith, ◌==◌, All}
use inp.Common.Bytes.{Bytes}
use inp.Otp.{starts, copy_verify, extract}

-- No place of `before` starts the password, with `after` behind it.
abbrev pub Unmatched : Bytes → Bytes → Type 0
Unmatched [] after = Unit
Unmatched (c ∷ before) after = (starts (c ∷ (before ++ after)) ≡ false) × Unmatched before after

abbrev pub IsPlain : ℕ → Type 0
IsPlain c = (c == b'=') ≡ false

copy_verify-append :
    (body rest : Bytes) → All IsPlain body → copy_verify (body ++ b'=' ∷ rest) ≡ some body
unfolding copy_verify
copy_verify-append [] rest h = refl
copy_verify-append (c ∷ body) rest (h, hs) =
    rw (h, copy_verify, copy_verify-append body rest hs) refl

copy_verify-none : (body : Bytes) → All IsPlain body → copy_verify body ≡ none
unfolding copy_verify
copy_verify-none [] h = refl
copy_verify-none (c ∷ body) (h, hs) = rw (h, copy_verify, copy_verify-none body hs) refl

-- The loop over the places in front.
extract_skip :
    (before after : Bytes) → Unmatched before after → extract (before ++ after) ≡ extract after
unfolding extract
extract_skip [] after h = refl
extract_skip (c ∷ before) after (h, hs) = rw (h, extract) (extract_skip before after hs)

starts_none : starts [] ≡ true → ⊥
unfolding starts
starts_none h = ground arith

extract_runs_out :
    (after : Bytes) → starts after ≡ true → copy_verify after ≡ none → extract after ≡ none
unfolding extract
extract_runs_out [] h k = absurd (starts_none h)
extract_runs_out (c ∷ cs) h k = rw (h, k, extract) refl

extract_found :
    (after verify : Bytes)
    → starts after ≡ true
    → copy_verify after ≡ some verify
    → extract after ≡ some (verify ++ b'=' ∷ b'=' ∷ [])
unfolding extract
extract_found [] verify h k = absurd (starts_none h)
extract_found (c ∷ cs) verify h k = rw (h, k, extract) refl

-- When a buffer has a password that ends in `=`, behind bytes where none starts, what is extracted is
-- the password up to its first `=`, followed by `==`, whatever stands behind it. When it has no `=`
-- from there on, the loop runs out of the buffer.
pub extract_lem :
    (before body rest : Bytes)
    → Unmatched before (body ++ b'=' ∷ rest) × Unmatched before body
    → (starts (body ++ b'=' ∷ rest) ≡ true) × (starts body ≡ true)
    → All IsPlain body
    → (extract (before ++ (body ++ b'=' ∷ rest)) ≡ some (body ++ b'=' ∷ b'=' ∷ []))
      × (extract (before ++ body) ≡ none)
extract_lem before body rest (u, u') (s, s') plain = (
  extract_skip before (body ++ b'=' ∷ rest) u
      ∙ extract_found (body ++ b'=' ∷ rest) body s (copy_verify-append body rest plain),
  extract_skip before body u' ∙ extract_runs_out body s' (copy_verify-none body plain),
)
