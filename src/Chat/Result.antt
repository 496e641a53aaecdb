-- ===== src/Chat/Result.antt =====
-- What a handler of homework2/server.cpp can come to. A fault ends the whole server.
use inp.Common.{◌≡◌, refl, Option, none, some}

-- `uncaught`: an exception that no handler catches. `null_pointer`: `clients[fd]->...` where the
-- map has no `fd`, so that `[]` makes a null pointer. `no_end`: a loop out of fuel.
pub data Fault : Type 0 where
  uncaught null_pointer no_end : Fault

pub data Result {ℓ} (A : Type ℓ) : Type ℓ where
  ok : A → Result A
  err : Fault → Result A

infixl 5 ◌>>=◌
abbrev pub ◌>>=◌ {ℓ κ} : {A : Type ℓ} {B : Type κ} → Result A → (A → Result B) → Result B
ok value >>= next = next value
err fault >>= next = err fault

abbrev pub or_fault {ℓ} : {A : Type ℓ} → Option A → Fault → Result A
or_fault none e = err e
or_fault (some a) e = ok a

pub >>=-eq-ok {ℓ κ} :
    {A : Type ℓ} {B : Type κ} (m : Result A) (f : A → Result B) (b : B)
    → (m >>= f) ≡ ok b
    → (a : A) × (m ≡ ok a) × (f a ≡ ok b)
>>=-eq-ok (ok a) f b h = (a, refl, h)
>>=-eq-ok (err e) f b h = cc
