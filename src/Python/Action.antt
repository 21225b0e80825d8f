-- ===== src/Python/Action.antt =====
-- Code that calls the service: it takes the service's state, and may raise.
use parqdb.Prelude.{◌≡◌, refl}
use parqdb.Python.Exceptions.{Result, ok, err}

abbrev pub Action : Type 0 → Type 0 → Type 0
Action S A = S → Result A × S

abbrev pub after : {S A B : Type 0} → Result A → S → (A → Action S B) → Result B × S
after (ok a) s f = f a s
after (err e) s f = (err e, s)

infixl 5 ◌>>=◌ ◌>>◌
abbrev pub ◌>>=◌ : {S A B : Type 0} → Action S A → (A → Action S B) → Action S B
(m >>= f) s = after (m s).0 (m s).1 f

abbrev pub ◌>>◌ : {S A B : Type 0} → Action S A → Action S B → Action S B
m >> k = m >>= λ _. k

-- What does not touch the service.
abbrev pub lift : {S A : Type 0} → Result A → Action S A
lift r s = (r, s)

pub after-eq_ok :
    {S A B : Type 0} {b : B} {t : S} (r : Result A) (s : S) (f : A → Action S B)
    → after r s f ≡ (ok b, t)
    → (a : A) × (r ≡ ok a) × (f a s ≡ (ok b, t))
after-eq_ok (ok a) s f h = (a, refl, h)
after-eq_ok (err e) s f h = cc

-- Inversion of a successful step, with the state that it leaves.
pub >>=-eq_ok :
    {S A B : Type 0} {b : B} {t : S} (m : Action S A) (f : A → Action S B) (s : S)
    → (m >>= f) s ≡ (ok b, t)
    → (a : A) × ((m s).0 ≡ ok a) × (f a (m s).1 ≡ (ok b, t))
>>=-eq_ok m f s h = after-eq_ok (m s).0 (m s).1 f h
