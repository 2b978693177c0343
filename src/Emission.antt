-- ===== src/Emission.antt =====
-- The shape that the instruction methods of src/instructions/*.cpp and src/sirit.cpp share:
-- `target->Reserve(n); return *target << head << operands… << EndOp{};`, after an `assert` in some.
pub mod Exact
pub mod Size
pub mod Runs
pub mod Short
pub mod Length
use sirit.Base.{
  ℕ, ℤ, pos, negsuc, Bool, true, false, Option, none, some, leb, [], ◌∷◌, List, Outcome, ok, ◌>>=◌,
  ◌>>◌, assert,
}
use sirit.Spirv.{Platform}
use sirit.Stream.{SpvId, Operand, Head, Stream, reserve, put_head, put_all, end_op}

-- The streams of a `Module`, which a method names.
pub data Section : Type 0 where
  ext_inst_imports entry_points execution_modes debug annotations : Section
  declarations global_variables code : Section

pub record Emission : Type 0 where
  -- the stream that the method writes to
  pub section : Section
  -- the `assert` at the top of the method
  pub asserts : Bool
  -- the argument of `Reserve`
  pub num_words : ℕ
  pub head : Head
  pub operands : List Operand

-- A method without an `assert`: `section->Reserve(n); *section << head << operands… << EndOp{}`.
abbrev pub emission : Section → ℕ → Head → List Operand → Emission
emission section n head operands = record {
  section = section;
  asserts = true;
  num_words = n;
  head = head;
  operands = operands;
}

abbrev pub asserting : Bool → Emission → Emission
asserting b e = record e { asserts = b }

module _ ⦃p : Platform⦄ where
  -- The method on a `Stream`, from `*bound`. It returns `Id{*bound}`, the new `*bound` and stream.
  unfoldable pub emit : Emission → ℕ → Stream → Outcome (SpvId × ℕ × Stream)
  emit e bound s = do
    assert e.asserts
    (bound', s') ← put_head e.head bound (reserve e.num_words s)
    s'' ← put_all e.operands s'
    s3 ← end_op s''
    ok (record { value = bound' }, bound', s3)

-- `has_value` of an optional, and `(x.has_value() ? 1 : 0)`
abbrev pub has_value {ℓ} : {A : Type ℓ} → Option A → Bool
has_value none = false
has_value (some x) = true

abbrev pub present {ℓ} : {A : Type ℓ} → Option A → ℕ
present none = 0
present (some x) = 1

-- `empty` of a span
abbrev pub is_empty {ℓ} : {A : Type ℓ} → List A → Bool
is_empty [] = true
is_empty (x ∷ xs) = false

-- `n >= 2` for an `int`
abbrev pub at_least_two : ℤ → Bool
at_least_two (pos n) = leb 2 n
at_least_two (negsuc n) = false
