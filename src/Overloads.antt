-- ===== src/Overloads.antt =====
-- include/sirit/sirit.h: the overloads with a parameter pack. Their calls pass each element of the span as an
-- argument of its own.
pub mod Methods
pub mod Image
use sirit.Base.{ℕ, zero, suc, List, [], ◌∷◌}

-- A function of `n` arguments of one type.
abbrev pub Variadic {ℓ} : Type 0 → ℕ → Type ℓ → Type ℓ
Variadic A zero B = B
Variadic A (suc n) B = A → Variadic A n B

-- `std::span<const Id>({arguments...})`, passed on to the method that takes the span
abbrev pub packed {ℓ} : {A : Type 0} {B : Type ℓ} (n : ℕ) → (List A → B) → Variadic A n B
packed zero f = f []
packed (suc n) f = λ x. packed n (λ xs. f (x ∷ xs))
