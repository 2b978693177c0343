-- ===== src/Stream.antt =====
-- src/stream.h: `Stream`, a buffer of words that an instruction is written into. The counter behind
-- the pointer `bound`, which all streams of a module share, is passed to the operations that read
-- or advance it. A write past the vector's size is undefined behaviour, and ends in a fault.
-- `size_t` is taken to be wide enough for any vector that fits the memory.
pub mod Text
pub mod Decode
pub mod Words
pub mod Operands
pub mod Heads
pub mod Chain
pub mod Address
use sirit.Base.{
  ℕ, zero, suc, ◌+◌, ◌-◌, ◌*◌, ◌/◌, ◌%◌, ◌^◌, bit_or, Bool, true, false, Option, none, some, List,
  [], ◌∷◌, ◌++◌, ltb, leb, ◌==◌, not, if◌then◌else◌, length, get_or, set, take, replicate, ℤ,
  cast_u32, cast_u64, Outcome, ok, fault, out_of_bounds, assert, ◌>>=◌, ◌>>◌,
}
use sirit.Spirv.{Op, Platform}

-- `Id`
pub record SpvId : Type 0 where
  pub value : ℕ

-- `ValidId`
abbrev pub valid_id : SpvId → Bool
valid_id id = not (id.value == 0)

-- `Literal`, a variant. A `float` or `double` is its bit pattern.
pub data Literal : Type 0 where
  uint32 uint64 : ℕ → Literal
  int32 int64 : ℤ → Literal
  float double : ℕ → Literal

-- The arguments of `Stream::operator<<` that are operands, an overload to a constructor. A text is
-- its bytes, an enumerator its number.
pub data Operand : Type 0 where
  id : SpvId → Operand
  u32 : ℕ → Operand
  s32 : ℤ → Operand
  boolean : Bool → Operand
  literal : Literal → Operand
  string : List ℕ → Operand
  enum : ℕ → Operand
  optional_id : Option SpvId → Operand
  optional_enum : Option ℕ → Operand
  ids : List SpvId → Operand
  literals : List Literal → Operand

-- What may begin an instruction: `spv::Op`, or the `OpId` of either constructor.
pub data Head : Type 0 where
  plain : Op → Head
  with_id : Op → Head
  with_type : Op → SpvId → Head

pub record Stream : Type 0 where
  pub words : List ℕ
  pub insert_index : ℕ
  pub op_index : ℕ

-- `Stream(u32*)`
abbrev pub empty : Stream
empty = record { words = []; insert_index = 0; op_index = 0 }

-- `Reserve`: `resize` adds zeros at the end.
unfoldable pub reserve : ℕ → Stream → Stream
reserve num_words s =
    if leb (s.insert_index + num_words) (length s.words)
    then s
    else record s { words = s.words ++ replicate (s.insert_index + num_words - length s.words) 0 }

-- `Words`
unfoldable pub contents : Stream → List ℕ
contents s = take s.insert_index s.words

-- `LocalAddress`
unfoldable pub local_address : Stream → ℕ
local_address s = length s.words % 2 ^ 32

-- `Value` and `SetValue`
pub get_value : ℕ → Stream → Outcome ℕ
get_value index s =
    if ltb index (length s.words) then ok (get_or s.words index 0) else fault out_of_bounds

pub set_value : ℕ → ℕ → Stream → Outcome Stream
set_value index value s =
    if ltb index (length s.words)
    then ok (record s { words = set s.words index value })
    else fault out_of_bounds

-- `words[insert_index++] = value`
unfoldable pub push_word : ℕ → Stream → Outcome Stream
push_word value s =
    if ltb s.insert_index (length s.words)
    then ok
        (record s { words = set s.words s.insert_index value; insert_index = s.insert_index + 1 })
    else fault out_of_bounds

-- `WordsInString`
unfoldable pub words_in_string : List ℕ → ℕ
words_in_string text = length text / 4 + 1

module _ ⦃p : Platform⦄ where
  -- `static_cast<u32>` of a `char`: a byte from 128 on is a negative number where `char` is signed.
  unfoldable pub char_word : ℕ → ℕ
  char_word byte =
      if p.char_is_signed then (if ltb byte 128 then byte else byte + (2 ^ 32 - 256)) else byte

  -- the lambda `read` of `InsertStringView`
  unfoldable pub read : List ℕ → ℕ → ℕ
  read text offset = if ltb offset (length text) then char_word (get_or text offset 0) else 0

  -- The four bytes from `i` on; a shift of a `u32` keeps 32 bits.
  unfoldable pub pack_word : List ℕ → ℕ → ℕ
  pack_word text i =
      bit_or
        (bit_or (bit_or (read text i) (read text (i + 1) * 2 ^ 8 % 2 ^ 32))
          (read text (i + 2) * 2 ^ 16 % 2 ^ 32))
        (read text (i + 3) * 2 ^ 24 % 2 ^ 32)

  -- the loop of `InsertStringView`, `i` counting by 4
  unfoldable pub insert_loop : List ℕ → ℕ → ℕ → Stream → Outcome Stream
  insert_loop text zero i s = ok s
  insert_loop text (suc fuel) i s = elim (ltb i (length text)) [
    | true ↦ push_word (pack_word text i) s >>= insert_loop text fuel (i + 4)
    | false ↦ ok s
  ]

  -- `InsertStringView`
  unfoldable pub insert_string_view : List ℕ → Stream → Outcome Stream
  insert_string_view text s = do
    s' ← insert_loop text (length text) 0 s
    if length text % 4 == 0 then push_word 0 s' else ok s'

-- `operator<<(u64)`: the low word first.
unfoldable pub put_u64 : ℕ → Stream → Outcome Stream
put_u64 value s = push_word (value % 2 ^ 32) s >>= push_word (value / 2 ^ 32 % 2 ^ 32)

-- `operator<<(Id)`
unfoldable pub put_id : SpvId → Stream → Outcome Stream
put_id x s = do assert (valid_id x); push_word x.value s

-- `operator<<(const Literal&)`
unfoldable pub put_literal : Literal → Stream → Outcome Stream
put_literal (uint32 n) s = push_word n s
put_literal (uint64 n) s = put_u64 n s
put_literal (int32 z) s = push_word (cast_u32 z) s
put_literal (int64 z) s = put_u64 (cast_u64 z) s
put_literal (float bits) s = push_word bits s
put_literal (double bits) s = put_u64 bits s

-- `operator<<(std::span<const T>)`
unfoldable pub put_ids : List SpvId → Stream → Outcome Stream
put_ids [] s = ok s
put_ids (x ∷ xs) s = put_id x s >>= put_ids xs

unfoldable pub put_literals : List Literal → Stream → Outcome Stream
put_literals [] s = ok s
put_literals (x ∷ xs) s = put_literal x s >>= put_literals xs

-- `operator<<(std::optional<T>)`
unfoldable pub put_optional_id : Option SpvId → Stream → Outcome Stream
put_optional_id none s = ok s
put_optional_id (some x) s = put_id x s

unfoldable pub put_optional_enum : Option ℕ → Stream → Outcome Stream
put_optional_enum none s = ok s
put_optional_enum (some x) s = push_word x s

module _ ⦃p : Platform⦄ where
  unfoldable pub put : Operand → Stream → Outcome Stream
  put (id x) s = put_id x s
  put (u32 n) s = push_word n s
  put (s32 z) s = push_word (cast_u32 z) s
  put (boolean b) s = push_word (if b then 1 else 0) s
  put (literal l) s = put_literal l s
  put (string text) s = insert_string_view text s
  put (enum n) s = push_word n s
  put (optional_id x) s = put_optional_id x s
  put (optional_enum x) s = put_optional_enum x s
  put (ids xs) s = put_ids xs s
  put (literals xs) s = put_literals xs s

  -- a chain `<< a << b …`
  unfoldable pub put_all : List Operand → Stream → Outcome Stream
  put_all [] s = ok s
  put_all (x ∷ xs) s = put x s >>= put_all xs

  -- `operator<<(spv::Op)` and `operator<<(OpId)`, the `assert` of the latter's constructor included.
  -- Beside the stream stands `*bound`, a `u32`.
  unfoldable pub put_head : Head → ℕ → Stream → Outcome (ℕ × Stream)
  put_head (plain op) bound s = do
    s' ← push_word (p.op_code op) (record s { op_index = s.insert_index })
    ok (bound, s')
  put_head (with_id op) bound s = do
    s' ← push_word (p.op_code op) (record s { op_index = s.insert_index })
    let bound' = (bound + 1) % 2 ^ 32
    s'' ← push_word bound' s'
    ok (bound', s'')
  put_head (with_type op result_type) bound s = do
    assert (valid_id result_type)
    s' ← push_word (p.op_code op) (record s { op_index = s.insert_index })
    s'' ← push_word result_type.value s'
    let bound' = (bound + 1) % 2 ^ 32
    s3 ← push_word bound' s''
    ok (bound', s3)

-- `words[op_index] |= num_words << 16`
unfoldable pub end_op : Stream → Outcome Stream
end_op s =
    if ltb s.op_index (length s.words)
    then ok (record s {
      words = set s.words s.op_index (
          bit_or (get_or s.words s.op_index 0)
            ((s.insert_index - s.op_index) % 2 ^ 32 * 2 ^ 16 % 2 ^ 32));
    })
    else fault out_of_bounds
