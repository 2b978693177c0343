-- ===== src/Module/Sets.antt =====
-- The sets of a module: a capability that is added twice is in it once.
use sirit.Base.{
  ℕ, ◌≡◌, ◌≢◌, ◌∙◌, List, [], ◌∷◌, ◌==◌, ==→ne, ==-self, Bool-cases, inl, inr, All, true, false,
}
use mathlib.Core.Logic.Or
use mathlib.Core.HLevel.{⊥_prop}
use mathlib.Core.List.{Mem, not-mem-nil, eq-or-mem_of_mem-cons, Nodup, Nodup-nil, Nodup-cons}
use sirit.Declarations.{words_eq}
use sirit.Declarations.Table.{words_eq_self}
use sirit.Module.{Module, insert_word, insert_text, add_capability}

-- No element stands twice.
abbrev pub IsUnique : {A : Type 0} → List A → Type 0
IsUnique [] = Unit
IsUnique (x ∷ xs) = All (λ y. x ≢ y) xs × IsUnique xs

insert_word-cases_hit : (x y : ℕ) (ys : List ℕ) → (y == x) ≡ true → insert_word x (y ∷ ys) ≡ y ∷ ys
unfolding insert_word
insert_word-cases_hit x y ys h = rw h

insert_word-cases_miss :
    (x y : ℕ) (ys : List ℕ) → (y == x) ≡ false → insert_word x (y ∷ ys) ≡ y ∷ insert_word x ys
unfolding insert_word
insert_word-cases_miss x y ys h = rw h

All-insert_word : (P : ℕ → Type 0) (x : ℕ) (xs : List ℕ) → P x → All P xs → All P (insert_word x xs)
All-insert_word P x [] h a = unfold insert_word in (h, tt)
All-insert_word P x (y ∷ ys) h (hy, a) = elim (Bool-cases (y == x)) [
  | inl e ↦ rw (insert_word-cases_hit x y ys e) (hy, a)
  | inr e ↦ rw (insert_word-cases_miss x y ys e) (hy, All-insert_word P x ys h a)
]

pub insert_word-IsUnique : (x : ℕ) (xs : List ℕ) → IsUnique xs → IsUnique (insert_word x xs)
insert_word-IsUnique x [] u = unfold insert_word in (tt, tt)
insert_word-IsUnique x (y ∷ ys) (hy, u) = elim (Bool-cases (y == x)) [
  | inl e ↦ rw (insert_word-cases_hit x y ys e) (hy, u)
  | inr e ↦
      rw (insert_word-cases_miss x y ys e)
        (All-insert_word (λ z. y ≢ z) x ys (==→ne y x e) hy, insert_word-IsUnique x ys u)
]

insert_word_known : (x : ℕ) (xs : List ℕ) → insert_word x (insert_word x xs) ≡ insert_word x xs
insert_word_known x [] = unfold insert_word in rw (==-self x)
insert_word_known x (y ∷ ys) = elim (Bool-cases (y == x)) [
  | inl e ↦ rw (insert_word-cases_hit x y ys e) (insert_word-cases_hit x y ys e)
  | inr e ↦
      rw (insert_word-cases_miss x y ys e)
        (insert_word-cases_miss x y (insert_word x ys) e ∙ (λ i. y ∷ insert_word_known x ys i))
]

All-insert_text :
    (P : List ℕ → Type 0) (x : List ℕ) (xs : List (List ℕ))
    → P x
    → All P xs
    → All P (insert_text x xs)
unfolding insert_text
All-insert_text P x [] h a = (h, tt)
All-insert_text P x (y ∷ ys) h (hy, a) = elim (Bool-cases (words_eq y x)) [
  | inl e ↦ rw e (hy, a)
  | inr e ↦ rw e (hy, All-insert_text P x ys h a)
]

words_eq→ne : (x y : List ℕ) → words_eq x y ≡ false → x ≢ y
words_eq→ne x y h e = cc (h, words_eq_self x, e)

pub insert_text-IsUnique :
    (x : List ℕ) (xs : List (List ℕ)) → IsUnique xs → IsUnique (insert_text x xs)
unfolding insert_text
insert_text-IsUnique x [] u = (tt, tt)
insert_text-IsUnique x (y ∷ ys) (hy, u) = elim (Bool-cases (words_eq y x)) [
  | inl e ↦ rw e (hy, u)
  | inr e ↦
      rw e (All-insert_text (λ z. y ≢ z) x ys (words_eq→ne y x e) hy, insert_text-IsUnique x ys u)
]

All-not_Mem : {A : Type 0} (x : A) (xs : List A) → All (λ y. x ≢ y) xs → ¬ Mem x xs
All-not_Mem x [] h m = not-mem-nil m
All-not_Mem x (y ∷ ys) (hy, h) m = Or.elim ⊥_prop (eq-or-mem_of_mem-cons m) hy (All-not_Mem x ys h)

-- The same as the library has it, which a permutation keeps.
pub IsUnique-Nodup : {A : Type 0} (xs : List A) → IsUnique xs → Nodup xs
IsUnique-Nodup [] u = Nodup-nil
IsUnique-Nodup (x ∷ xs) (hx, u) = Nodup-cons.1 (All-not_Mem x xs hx, IsUnique-Nodup xs u)

-- `AddCapability` keeps the capabilities without repetition, and a second call with the same
-- capability changes nothing.
add_capability-IsUnique :
    (capability : ℕ) (m : Module)
    → IsUnique m.capabilities
    → IsUnique (add_capability capability m).capabilities
      × (add_capability capability (add_capability capability m) ≡ add_capability capability m)
unfolding add_capability
add_capability-IsUnique capability m u = (
  insert_word-IsUnique capability m.capabilities u,
  λ i. record m { capabilities = insert_word_known capability m.capabilities i },
)
