-- ===== src/Declarations/Table.antt =====
-- The table of declarations: its keys are compared in full, and its ids fall from entry to entry,
-- since each new id is above all earlier ones.
use sirit.Base.{
  ℕ, ◌-◌, ◌≤◌, ◌<◌, ◌≡◌, refl, sym, ◌∙◌, true, &&-split, ◌⊎◌, inl, inr, some, List, [], ◌∷◌, arith,
  ◌==◌, ==→eq, ==-self, Bool-cases,
}
use sirit.Declarations.{Table, words_eq, find}

pub words_eq→eq : (xs ys : List ℕ) → words_eq xs ys ≡ true → xs ≡ ys
unfolding words_eq
words_eq→eq [] [] h = refl
words_eq→eq [] (y ∷ ys) h = cc
words_eq→eq (x ∷ xs) [] h = cc
words_eq→eq (x ∷ xs) (y ∷ ys) h =
    let (hx, hxs) = &&-split (x == y) (words_eq xs ys) h in
    λ i. ==→eq x y hx i ∷ words_eq→eq xs ys hxs i

pub words_eq_self : (xs : List ℕ) → words_eq xs xs ≡ true
unfolding words_eq
words_eq_self [] = refl
words_eq_self (x ∷ xs) = rw (==-self x) (words_eq_self xs)

-- The ids of the table are positive, at most `bound`, and fall.
abbrev pub IsFalling : ℕ → Table → Type 0
IsFalling bound [] = Unit
IsFalling bound ((k, i) ∷ t) = (0 < i) × (i ≤ bound) × IsFalling (i - 1) t

pub IsFalling-mono : (t : Table) (m n : ℕ) → m ≤ n → IsFalling m t → IsFalling n t
IsFalling-mono [] m n h f = tt
IsFalling-mono ((k, i) ∷ t) m n h (lo, hi, f) = (lo, omega arith, f)

find_cases :
    (key m : List ℕ) (j : ℕ) (t : Table) (i : ℕ)
    → find key ((m, j) ∷ t) ≡ some i
    → ((m ≡ key) × (j ≡ i)) ⊎ (find key t ≡ some i)
unfolding find
find_cases key m j t i h = elim (Bool-cases (words_eq m key)) [
  | inl e ↦ inl (words_eq→eq m key e, cc (h, e))
  | inr e ↦ inr (rw e at h)
]

-- What is found is within the bound.
pub find-bounds :
    (key : List ℕ) (t : Table) (bound i : ℕ)
    → IsFalling bound t
    → find key t ≡ some i
    → (0 < i) × (i ≤ bound)
find-bounds key [] bound i f h = unfold find in cc
find-bounds key ((k, j) ∷ t) bound i (lo, hi, f) h = elim (find_cases key k j t i h) [
  | inl (_, e) ↦ omega arith
  | inr e ↦ omega (arith, find-bounds key t (j - 1) i f e)
]

-- Two keys with one id are one key.
pub find_injective :
    (k l : List ℕ) (t : Table) (bound i : ℕ)
    → IsFalling bound t
    → find k t ≡ some i
    → find l t ≡ some i
    → k ≡ l
find_injective k l [] bound i f h g = unfold find in cc
find_injective k l ((m, j) ∷ t) bound i (lo, hi, f) h g = elim (find_cases k m j t i h) [
  | inl (e, ej) ↦ elim (find_cases l m j t i g) [
    | inl (e', _) ↦ sym e ∙ e'
    | inr r ↦ absurd (omega (arith, find-bounds l t (j - 1) i f r))
  ]
  | inr r ↦ elim (find_cases l m j t i g) [
    | inl (_, ej) ↦ absurd (omega (arith, find-bounds k t (j - 1) i f r))
    | inr r' ↦ find_injective k l t (j - 1) i f r r'
  ]
]
