-- ===== src/Base/Failure.antt =====
-- How a C++ call can end: with a value, at a failed `assert`, or with a vector accessed out of
-- its bounds, which is undefined behaviour.
use mathlib.Core.Path.{◌≡◌, refl, ap}
use mathlib.Core.Bool.{Bool, true, false}

pub data Fault : Type 0 where
  assertion out_of_bounds : Fault

pub data Outcome {ℓ} (A : Type ℓ) : Type ℓ where
  fault : Fault → Outcome A
  ok : A → Outcome A

-- A call goes on with `next` if the one before has returned.
infixl 5 ◌>>=◌
abbrev pub ◌>>=◌ {ℓ κ} : {A : Type ℓ} {B : Type κ} → Outcome A → (A → Outcome B) → Outcome B
fault reason >>= next = fault reason
ok value >>= next = next value

infixl 5 ◌>>◌
abbrev pub ◌>>◌ {ℓ} : {B : Type ℓ} → Outcome (Unit {0}) → Outcome B → Outcome B
first >> second = first >>= λ done. second

-- `assert(b)`
abbrev pub assert : Bool → Outcome (Unit {0})
assert true = ok tt
assert false = fault assertion

pub >>=-ok {ℓ} : {A : Type ℓ} (m : Outcome A) → (m >>= ok) ≡ m
>>=-ok (ok a) = refl
>>=-ok (fault e) = refl

pub >>=_assoc {ℓ κ μ} :
    {A : Type ℓ} {B : Type κ} {C : Type μ} (m : Outcome A) (f : A → Outcome B) (g : B → Outcome C)
    → ((m >>= f) >>= g) ≡ (m >>= λ a. f a >>= g)
>>=_assoc (ok a) f g = refl
>>=_assoc (fault e) f g = refl

unwrap {ℓ} : {A : Type ℓ} → A → Outcome A → A
unwrap d (ok a) = a
unwrap d (fault e) = d

pub ok-injective {ℓ} : {A : Type ℓ} {a b : A} → ok a ≡ ok b → a ≡ b
unfolding unwrap
ok-injective {a} h = ap (unwrap a) h
