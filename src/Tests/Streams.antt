-- ===== src/Tests/Streams.antt =====
-- `Stream` and the emissions at small inputs.
use sirit.Base.{
  ℕ, ◌≡◌, refl, arith, List, [], ◌∷◌, length, fault, out_of_bounds, replicate, length-replicate,
  zero, suc, true, ◌+◌, take, drop, ok,
}
use sirit.Spirv.{Op}
use sirit.Stream.{
  Stream, id, with_type, insert_string_view, char_word, words_in_string, contents, empty,
}
use sirit.Stream.Words.{at}
use sirit.Stream.Text.{string_words, length-string_words}
use sirit.Emission.{Emission, emission, emit, code}
use sirit.Emission.Exact.{emit_overflow, accepted}
use sirit.Emission.Runs.{Emitted, emit_runs}
use sirit.Tests.Target.{test_platform, spv}
use sirit.Stream.Decode.{decode, decode-insert_string_view}
use sirit.Stream.Operands.{valid_ids}
use sirit.Emission.Size.{written}
use sirit.Emission.Length.{Cut, emit-Cut}
use sirit.Instructions.Types.{type_struct}

-- "void"
abbrev void_text : List ℕ
void_text = b'v' ∷ b'o' ∷ b'i' ∷ b'd' ∷ []

abbrev negate : Emission
negate = emission code 4 (with_type Op.op_f_negate (spv 2)) (id (spv 5) ∷ [])

abbrev loose : Stream
loose = at (7 ∷ []) (0 ∷ 0 ∷ []) 0

-- the words of "void", the second of which ends it
void_words : string_words void_text ≡ 0x64696f76 ∷ 0 ∷ []
unfolding char_word
void_words = refl

length-string_words_example : length (string_words void_text) ≡ 2
unfolding words_in_string
length-string_words_example = length-string_words void_text

emit_overflow_example :
    emit (emission code 3 (with_type Op.op_f_negate (spv 2)) (id (spv 5) ∷ [])) 5 (at (7 ∷ []) [] 0)
    ≡ fault out_of_bounds
emit_overflow_example =
    emit_overflow (emission code 3 (with_type Op.op_f_negate (spv 2)) (id (spv 5) ∷ [])) 5 (7 ∷ [])
      [] 0 refl (omega arith)

emit_runs_example : (s' : Stream) × Emitted negate 5 loose s'
emit_runs_example = emit_runs negate 5 loose (omega arith) refl (omega arith)

-- Room for the two words of the text behind one word.
abbrev with_room : Stream
with_room = at (7 ∷ []) (0 ∷ 0 ∷ []) 0

decode-insert_string_view_example :
    (s' : Stream) × (insert_string_view void_text with_room ≡ ok s')
    × (take 1 (contents s') ≡ contents with_room)
    × (decode (drop 1 (contents s')) ≡ void_text)
unfolding words_in_string
decode-insert_string_view_example =
    decode-insert_string_view void_text with_room
      (
        (omega arith, omega arith),
        (
          (omega arith, omega arith),
          ((omega arith, omega arith), ((omega arith, omega arith), tt)),
        ),
      )
      (omega arith)

valid_ids-replicate : (n : ℕ) → valid_ids (replicate n (spv 1)) ≡ true
valid_ids-replicate zero = refl
valid_ids-replicate (suc n) = valid_ids-replicate n

-- `TypeStruct` with `n` members
abbrev struct_of : ℕ → Emission
struct_of n = type_struct (replicate n (spv 1))

struct_of-accepted : (n : ℕ) → accepted (struct_of n) ≡ true
unfolding type_struct
struct_of-accepted n = ground (arith, valid_ids-replicate n)

struct_of-written : (n : ℕ) → (written (struct_of n) ≡ 2 + n) × ((struct_of n).num_words ≡ 2 + n)
unfolding type_struct
struct_of-written n = omega (arith, length-replicate n (spv 1))

emit-Cut_example : (s' : Stream) × Cut (struct_of 65534) 0 empty s'
emit-Cut_example =
    emit-Cut (struct_of 65534) 0 empty (omega (arith, struct_of-written 65534))
      (struct_of-accepted 65534) (omega arith) (omega (arith, struct_of-written 65534))
