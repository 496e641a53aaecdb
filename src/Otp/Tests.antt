-- ===== src/Otp/Tests.antt =====
-- A run of the extraction of lab4/lab4.cpp.
use inp.Common.{◌≡◌, refl, true, [], ◌∷◌, ◌++◌, none, some, All}
use inp.Common.Bytes.{Bytes}
use inp.Otp.{starts, extract}
use inp.Otp.Extract.{Unmatched, IsPlain, extract_lem}

abbrev start_of : Bytes
start_of = b'O' ∷ b'K' ∷ b'1' ∷ []

abbrev body_of : Bytes
body_of = b'1' ∷ b'1' ∷ b'0' ∷ b'5' ∷ b'+' ∷ b'a' ∷ []

no_match : Unmatched start_of (body_of ++ b'=' ∷ b'!' ∷ []) × Unmatched start_of body_of
unfolding starts
no_match = ((refl, (refl, (refl, tt))), (refl, (refl, (refl, tt))))

a_match : (starts (body_of ++ b'=' ∷ b'!' ∷ []) ≡ true) × (starts body_of ≡ true)
unfolding starts
a_match = (refl, refl)

plain : All IsPlain body_of
plain = (refl, (refl, (refl, (refl, (refl, (refl, tt))))))

extract_lem_example :
    (extract (start_of ++ (body_of ++ b'=' ∷ b'!' ∷ [])) ≡ some (body_of ++ b'=' ∷ b'=' ∷ []))
    × (extract (start_of ++ body_of) ≡ none)
extract_lem_example = extract_lem start_of body_of (b'!' ∷ []) no_match a_match plain
