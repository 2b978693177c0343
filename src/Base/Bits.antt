-- ===== src/Base/Bits.antt =====
-- `bit_or` and `bit_and` at variables, for fields that do not overlap and for masks of ones.
-- Both laws come from the recursion on binary digits.
use Prim.Native.Nat.{
  ℕ, zero, suc, ◌+◌, ◌*◌, ◌/◌, ◌%◌, ◌^◌, ◌≤◌, ◌<◌, min, max, bit_and, bit_or, digits,
  bit_and-bitwise, bit_or-bitwise,
}
use mathlib.Core.Path.{◌≡◌, refl, ap, sym, ◌∙◌}
use native.Mathlib.Nat.{
  pow-suc, one-le-pow, mod-lt, mod-eq_of_lt, add-mul-mod_self_right, div-add-mod,
}
use native.Mathlib.Omega.{arith}

-- Both operations recurse on the digits of their first argument, `rest` being the answer once that
-- has none left. As many rounds as its value are more than it has digits.
module _ (rest : ℕ → ℕ) (combine : ℕ → ℕ → ℕ) where
  rounds_enough :
      (x f g y : ℕ) → x ≤ g → x ≤ f → digits rest combine f x y ≡ digits rest combine g x y
  rounds_enough (suc x) (suc f) (suc g) y hg hf =
      omega (arith, rounds_enough (suc x / 2) f g (y / 2) (omega arith) (omega arith))
  rounds_enough zero (suc f) (suc g) y hg hf = refl
  rounds_enough zero (suc f) zero y hg hf = refl
  rounds_enough zero zero (suc g) y hg hf = refl
  rounds_enough zero zero zero y hg hf = refl
  rounds_enough (suc x) f zero y hg hf = absurd (omega arith)
  rounds_enough (suc x) zero (suc g) y hg hf = absurd (omega arith)

bit_or_none : (y : ℕ) → bit_or 0 y ≡ y
bit_or_none = bit_or-bitwise 0

bit_and_none : (y : ℕ) → bit_and 0 y ≡ 0
bit_and_none = bit_and-bitwise 0

or_low_bit : (x y : ℕ) → bit_or x y ≡ max (x % 2) (y % 2) + 2 * bit_or (x / 2) (y / 2)
or_low_bit zero y = omega (arith, bit_or_none (y / 2), bit_or_none y)
or_low_bit (suc x) y =
    let half = suc x / 2 in
    omega (
      arith,
      rounds_enough (λ t. t) max half x half (y / 2) (omega arith) (omega arith),
      bit_or-bitwise half (y / 2),
      bit_or-bitwise (suc x) y,
    )

and_low_bit : (x y : ℕ) → bit_and x y ≡ min (x % 2) (y % 2) + 2 * bit_and (x / 2) (y / 2)
and_low_bit zero y = omega (arith, bit_and_none (y / 2), bit_and_none y)
and_low_bit (suc x) y =
    let half = suc x / 2 in
    omega (
      arith,
      rounds_enough (λ t. 0) min half x half (y / 2) (omega arith) (omega arith),
      bit_and-bitwise half (y / 2),
      bit_and-bitwise (suc x) y,
    )

-- Fields that do not overlap: `a | b << k` is a sum where `a` has `k` bits.
pub bit_or-shift : (k a b : ℕ) → a < 2 ^ k → bit_or a (b * 2 ^ k) ≡ a + b * 2 ^ k
bit_or-shift zero zero b h = omega (arith, bit_or_none (b * 2 ^ 0))
bit_or-shift zero (suc a) b h = absurd (omega arith)
bit_or-shift (suc k) a b h = omega (
  arith,
  pow-suc 2 k,
  ap (λ (t : ℕ). b * t) (pow-suc 2 k),
  or_low_bit a (b * 2 ^ suc k),
  ap (λ (t : ℕ). bit_or (a / 2) t) halved,
  bit_or-shift k (a / 2) b (omega (arith, pow-suc 2 k)),
)
  where
    halved : b * 2 ^ suc k / 2 ≡ b * 2 ^ k
    halved = omega (arith, ap (λ (t : ℕ). b * t) (pow-suc 2 k))

-- The mask of `k` ones.
abbrev ones : ℕ → ℕ
ones zero = 0
ones (suc k) = ones k * 2 + 1

nothing_and : (bound x : ℕ) → x ≤ bound → bit_and x 0 ≡ 0
nothing_and bound zero le = bit_and_none 0
nothing_and (suc bound) (suc x) le =
    omega (arith, nothing_and bound (suc x / 2) (omega arith), and_low_bit (suc x) 0)
nothing_and zero (suc x) le = absurd (omega arith)

mod_double : (p a : ℕ) → 0 < p → a / 2 % p * 2 + a % 2 ≡ a % (2 * p)
mod_double p a h =
    sym (mod-eq_of_lt {n = a / 2 % p * 2 + a % 2} {m = 2 * p} (omega (arith, mod-lt (a / 2) h)))
    ∙ sym (add-mul-mod_self_right (a / 2 % p * 2 + a % 2) (a / 2 / p) (2 * p))
    ∙ ap (λ t. t % (2 * p)) (omega (arith, div-add-mod (a / 2) p))

bit_and-ones : (k a : ℕ) → bit_and a (ones k) ≡ a % 2 ^ k
bit_and-ones zero a = omega (arith, nothing_and a a (omega arith))
bit_and-ones (suc k) a = omega (
  arith,
  and_low_bit a (ones (suc k)),
  bit_and-ones k (a / 2),
  ap (λ (t : ℕ). bit_and (a / 2) t) halved,
  mod_double (2 ^ k) a (one-le-pow k 2 (omega arith)),
  ap (λ (t : ℕ). a % t) doubled,
)
  where
    halved : ones (suc k) / 2 ≡ ones k
    halved = omega arith

    doubled : 2 ^ suc k ≡ 2 * 2 ^ k
    doubled = omega (arith, pow-suc 2 k)

-- `a & 0xffff`
pub bit_and-0xffff : (a : ℕ) → bit_and a 0xffff ≡ a % 2 ^ 16
bit_and-0xffff a = bit_and-ones 16 a
