-- ===== src/Declarations/Buckets.antt =====
-- src/stream.h: `HashVector`, and what the map's lookups owe to it: nothing but the bucket.
use mathlib.Core.Path.{ap₂}
use Prim.Native.Nat.{bit_xor}
use sirit.Base.{
  ℕ, suc, ◌%◌, ◌≡◌, refl, sym, ap, ◌∙◌, Bool, true, false, Option, none, some, inl, inr, Bool-cases,
  Option-cases, List, [], ◌∷◌, ◌==◌, ==→eq, ==→ne, if◌then◌else◌, length, ◌+◌,
}
use sirit.Declarations.{Table, find, words_eq}
use sirit.Declarations.Table.{words_eq→eq}
use sirit.Declarations.Intern.{intern}

-- `HashVector::operator()` with `std::hash` of a size and of a word
module _ (hash_size hash_word : ℕ → ℕ) where
  abbrev hash_loop : List ℕ → ℕ → ℕ
  hash_loop [] hash = hash
  hash_loop (value ∷ vector) hash = hash_loop vector (bit_xor hash (hash_word value))

  abbrev hash_vector : List ℕ → ℕ
  hash_vector vector = hash_loop vector (hash_size (length vector))

-- `emplace` on the table: the id that is in it then, and whether it is new
abbrev emplace : List ℕ → ℕ → Table → ℕ × Bool × Table
emplace key id t = emplace_found (find key t) key id t
  where
    emplace_found : Option ℕ → List ℕ → ℕ → Table → ℕ × Bool × Table
    emplace_found none key id t = (id, true, (key, id) ∷ t)
    emplace_found (some known) key id t = (known, false, t)

-- An `unordered_map` as the standard describes it: the keys of one bucket in a chain.
abbrev Buckets : Type 0
Buckets = ℕ → Table

module _ (hash : List ℕ → ℕ) where
  -- with `suc count` buckets
  abbrev bucket : ℕ → List ℕ → ℕ
  bucket count key = hash key % suc count

  abbrev emplace_bucket : ℕ → List ℕ → ℕ → Buckets → ℕ × Bool × Buckets
  emplace_bucket count key id b =
      let (i, inserted, chain) = emplace key id (b (bucket count key)) in
      (i, inserted, λ n. if n == bucket count key then chain else b n)

  -- All buckets together hold what the table holds.
  abbrev IsHashed : ℕ → Buckets → Table → Type 0
  IsHashed count b t = (key : List ℕ) → find key (b (bucket count key)) ≡ find key t

  find_cons :
      (key l : List ℕ) (id : ℕ) (t u : Table)
      → (words_eq key l ≡ false → find l t ≡ find l u)
      → find l ((key, id) ∷ t) ≡ find l ((key, id) ∷ u)
  unfolding find
  find_cons key l id t u h = elim (Bool-cases (words_eq key l)) [
    | inl e ↦ rw e refl
    | inr e ↦ rw e (h e)
  ]

  same_bucket :
      (count : ℕ) (key l : List ℕ)
      → (bucket count l == bucket count key) ≡ false
      → words_eq key l ≡ false
  same_bucket count key l h = elim (Bool-cases (words_eq key l)) [
    | inl e ↦ absurd (
        differ (bucket count l) (bucket count key) h
          (ap (bucket count) (sym (words_eq→eq key l e))))
    | inr e ↦ e
  ]
    where
      differ : (m n : ℕ) → (m == n) ≡ false → m ≡ n → ⊥
      differ m n h e = ==→ne m n h e

  -- `emplace` answers alike, and keeps the two in step.
  emplace_bucket-IsHashed :
      (count : ℕ) (key : List ℕ) (id : ℕ) (b : Buckets) (t : Table)
      → IsHashed count b t
      → ((emplace_bucket count key id b).0 ≡ (emplace key id t).0)
        × ((emplace_bucket count key id b).1 ≡ (emplace key id t).1)
        × IsHashed count (emplace_bucket count key id b).2 (emplace key id t).2
  emplace_bucket-IsHashed count key id b t h = elim (Option-cases (find key t)) [
    | inl miss ↦
        rw (miss, h key, miss)
          (
            refl,
            refl,
            λ l. elim (Bool-cases (bucket count l == bucket count key)) [
              | inl e ↦ rw e (
                  find_cons key l id (b (bucket count key)) t (λ _.
                    ap (λ n. find l (b n)) (sym (==→eq (bucket count l) (bucket count key) e))
                    ∙ h l))
              | inr e ↦ rw e (unfold find in rw (same_bucket count key l e) (h l))
            ],
          )
    | inr (i, hit) ↦
        rw (hit, h key, hit)
          (
            refl,
            refl,
            λ l. elim (Bool-cases (bucket count l == bucket count key)) [
              | inl e ↦
                  rw e (
                    ap (λ n. find l (b n)) (sym (==→eq (bucket count l) (bucket count key) e))
                    ∙ h l)
              | inr e ↦ rw e (h l)
            ],
          )
  ]

  -- The ids of a sequence of declarations: `++*bound`, `emplace`, and `--*bound` where it found the key.
  abbrev intern_bucket : ℕ → List ℕ → ℕ → Buckets → ℕ × ℕ × Buckets
  intern_bucket count key bound b =
      let (i, inserted, b') = emplace_bucket count key (bound + 1) b in
      (i, if inserted then bound + 1 else bound, b')

  abbrev intern_buckets : ℕ → List (List ℕ) → ℕ → Buckets → List ℕ
  intern_buckets count [] bound b = []
  intern_buckets count (key ∷ keys) bound b =
      let (i, bound', b') = intern_bucket count key bound b in
      i ∷ intern_buckets count keys bound' b'

abbrev intern_all : List (List ℕ) → ℕ → Table → List ℕ
intern_all [] bound t = []
intern_all (key ∷ keys) bound t =
    let (i, bound', t') = intern key bound t in i ∷ intern_all keys bound' t'

intern-emplace :
    (key : List ℕ) (bound : ℕ) (t : Table)
    → intern key bound t ≡ (
      (emplace key (bound + 1) t).0,
      if (emplace key (bound + 1) t).1 then bound + 1 else bound,
      (emplace key (bound + 1) t).2,
    )
intern-emplace key bound t = elim (Option-cases (find key t)) [
  | inl miss ↦ rw miss refl
  | inr (i, hit) ↦ rw hit refl
]

intern_buckets-intern_all :
    (hash : List ℕ → ℕ) (count : ℕ) (keys : List (List ℕ)) (bound : ℕ) (b : Buckets) (t : Table)
    → IsHashed hash count b t
    → intern_buckets hash count keys bound b ≡ intern_all keys bound t
intern_buckets-intern_all hash count [] bound b t h = refl
intern_buckets-intern_all hash count (key ∷ keys) bound b t h =
    let (same, new, h') = emplace_bucket-IsHashed hash count key (bound + 1) b t h in
    let e = emplace key (bound + 1) t in
    let b' = (emplace_bucket hash count key (bound + 1) b).2 in
    ap₂ (λ (i : ℕ) l. i ∷ l) same
      (ap (λ (n : Bool). intern_buckets hash count keys (if n then bound + 1 else bound) b') new
        ∙ intern_buckets-intern_all hash count keys (if e.1 then bound + 1 else bound) b' e.2 h')
    ∙ sym (ap (λ (r : ℕ × ℕ × Table). r.0 ∷ intern_all keys r.1 r.2) (intern-emplace key bound t))

-- Keys that are declared one after another get the same ids from a map that keeps them in buckets by
-- `HashVector`, as from the table without a hash, whatever the hashes of sizes and words are, and
-- however many buckets there are.
intern_buckets-hash_vector :
    (hash_size hash_word : ℕ → ℕ) (count : ℕ) (keys : List (List ℕ)) (bound : ℕ)
    → intern_buckets (hash_vector hash_size hash_word) count keys bound (λ n. [])
      ≡ intern_all keys bound []
intern_buckets-hash_vector hash_size hash_word count keys bound =
    intern_buckets-intern_all (hash_vector hash_size hash_word) count keys bound (λ n. []) []
      (λ key. refl)
