-- ===== src/Web/Mime.antt =====
-- The type that homework1/demo/utils.c and utils_https.c give a file: they look for the extension
-- anywhere in the path, where homework1/README.md asks for the file's extension name.
use inp.Common.{
  ℕ, ◌≡◌, suc, refl, subst, inl, inr, Bool, Bool-cases, true, false, ◌&&◌, [], ◌∷◌, Option, none,
  some, if◌then◌else◌, arith,
}
use inp.Common.Bytes.{Bytes, text, bytes_eq, bytes_eq_iff}
use inp.Common.Text.{find, starts_with}
use inp.Web.{strstr, mime_type}
use mathlib.Core.Option
use inp.Web.Site.{
  Answer, not_found, forbidden, broken, moved, ok, ends_with, type_by_extension, response_with,
}

-- The word stands in the name at its end only.
unfoldable pub is_only_at_end : Bytes → Bytes → Bool
is_only_at_end word [] = true
is_only_at_end word (c ∷ cs) =
    (if starts_with word (c ∷ cs) then bytes_eq word (c ∷ cs) else true) && is_only_at_end word cs

-- None of the extensions that the server looks for stands inside the name.
unfoldable pub IsClear : Bytes → Type 0
IsClear name =
    (is_only_at_end (text ".html") name ≡ true)
    × (is_only_at_end (text ".jpg") name ≡ true)
    × (is_only_at_end (text ".mp3") name ≡ true)
    × (is_only_at_end (text ".png") name ≡ true)

starts_with_self : (word : Bytes) → starts_with word word ≡ true
unfolding starts_with
starts_with_self [] = refl
starts_with_self (c ∷ word) = ground (arith, starts_with_self word)

whole_starts : (word name : Bytes) → bytes_eq word name ≡ true → starts_with word name ≡ true
whole_starts word name h =
    subst (λ s. starts_with word s ≡ true) ((bytes_eq_iff word name).0 h) (starts_with_self word)

nothing_in :
    (strstr [] [] ≡ ends_with [] [])
    × ((x : ℕ) (word : Bytes) → strstr [] (x ∷ word) ≡ ends_with (x ∷ word) [])
unfolding strstr find ends_with starts_with bytes_eq
nothing_in = (refl, λ x word. refl)

found_again :
    (o : Option ℕ)
    → (elim (Option.map suc o) [ none ↦ false | some at ↦ true ])
      ≡ (elim o [ none ↦ false | some at ↦ true ])
found_again none = refl
found_again (some at) = refl

found_lem :
    (b : Bool) (o : Option ℕ)
    → (elim (if b then some 0 else Option.map suc o) [ none ↦ false | some at ↦ true ])
      ≡ (if b then true else elim o [ none ↦ false | some at ↦ true ])
found_lem true o = refl
found_lem false o = found_again o

strstr-next :
    (word : Bytes) (c : ℕ) (cs : Bytes)
    → strstr (c ∷ cs) word ≡ (if starts_with word (c ∷ cs) then true else strstr cs word)
unfolding strstr find
strstr-next word c cs = found_lem (starts_with word (c ∷ cs)) (find word cs)

strstr-ends_with :
    (word name : Bytes) → is_only_at_end word name ≡ true → strstr name word ≡ ends_with word name
unfolding is_only_at_end ends_with
strstr-ends_with [] [] h = nothing_in.0
strstr-ends_with (x ∷ word) [] h = nothing_in.1 x word
strstr-ends_with word (c ∷ cs) h = elim (Bool-cases (starts_with word (c ∷ cs))) [
  | inl e ↦
      let whole : bytes_eq word (c ∷ cs) ≡ true = ground (arith, e, h) in
      rw (strstr-next word c cs, e, whole) refl
  | inr e ↦
      let rest = strstr-ends_with word cs (ground (arith, e, h)) in
      let other : bytes_eq word (c ∷ cs) ≡ false = ground (arith, e, whole_starts word (c ∷ cs)) in
      rw (strstr-next word c cs, e, other) rest
]

pub mime_type-IsClear : (name : Bytes) → IsClear name → mime_type name ≡ type_by_extension name
unfolding IsClear mime_type type_by_extension
mime_type-IsClear name h =
    rw
      (
        strstr-ends_with (text ".html") name h.0,
        strstr-ends_with (text ".jpg") name h.1,
        strstr-ends_with (text ".mp3") name h.2,
        strstr-ends_with (text ".png") name h.3,
      )
      refl

-- The answer is that of the README when the name of the file, if it gives one, has its extension at
-- its end only.
pub response_with-IsClear :
    (answer : Answer)
    → ((name bytes : Bytes) → answer ≡ ok name bytes → IsClear name)
    → response_with mime_type answer ≡ response_with type_by_extension answer
unfolding response_with
response_with-IsClear not_found h = refl
response_with-IsClear forbidden h = refl
response_with-IsClear broken h = refl
response_with-IsClear (moved target) h = refl
response_with-IsClear (ok name bytes) h = rw (mime_type-IsClear name (h name bytes refl)) refl
