-- ===== src/Declarations.antt =====
-- src/stream.h: `Declarations`, a stream in which equal declarations share an id.
pub mod Table
pub mod Declare
pub mod Intern
pub mod Sharing
pub mod Buckets
use sirit.Base.{
  ℕ, ◌+◌, ◌-◌, ◌%◌, ◌^◌, Bool, true, false, ◌&&◌, Option, none, some, List, [], ◌∷◌, ltb, ◌==◌,
  if◌then◌else◌, length, get_or, set, take, drop, Outcome, ok, fault, out_of_bounds, ◌>>=◌, ◌>>◌,
  assert,
}
use sirit.Spirv.{Platform}
use sirit.Stream.{
  SpvId, Head, plain, with_id, with_type, Stream, empty, reserve, contents, put_head, put_all,
  end_op,
}
use sirit.Emission.{Emission}

-- `existing_declarations`, an `unordered_map`. It is never iterated, so the order of its entries is
-- not modelled; a hash that is a function of the key does not change which keys are found.
abbrev pub Table : Type 0
Table = List (List ℕ × ℕ)

pub record Declarations : Type 0 where
  pub stream : Stream
  pub existing_declarations : Table
  pub id_index : ℕ

-- `Declarations(u32*)`
abbrev pub no_declarations : Declarations
no_declarations = record { stream = empty; existing_declarations = []; id_index = 0 }

-- `==` of two vectors of words
unfoldable pub words_eq : List ℕ → List ℕ → Bool
words_eq [] [] = true
words_eq [] (y ∷ ys) = false
words_eq (x ∷ xs) [] = false
words_eq (x ∷ xs) (y ∷ ys) = x == y && words_eq xs ys

unfoldable pub find : List ℕ → Table → Option ℕ
find key [] = none
find key ((k, i) ∷ t) = if words_eq k key then some i else find key t

-- `id_index` as `operator<<(OpId)` sets it. The overload for `spv::Op` is deleted.
abbrev pub index_of : Head → ℕ
index_of (plain op) = 0
index_of (with_id op) = 1
index_of (with_type op t) = if t.value == 0 then 1 else 2

-- `operator<<(EndOp)` where the lookup has found `known` under the key.
unfoldable pub end_lookup :
    Option ℕ → List ℕ → ℕ → ℕ → Declarations → Outcome (SpvId × ℕ × Declarations)
end_lookup none key id bound d = do
  s ← end_op d.stream
  ok (
    record { value = bound },
    bound,
    record d { stream = s; existing_declarations = (key, id) ∷ d.existing_declarations },
  )
end_lookup (some known) key id bound d = ok (
  record { value = known },
  (bound + 2 ^ 32 - 1) % 2 ^ 32,
  record d {
    stream = record {
      words = d.stream.words;
      insert_index = d.stream.op_index;
      op_index = d.stream.op_index;
    };
  },
)

-- `operator<<(EndOp)`: the words from `op_index` on, with the id taken out of them, are the key.
unfoldable pub end_declaration : ℕ → Declarations → Outcome (SpvId × ℕ × Declarations)
unfolding end_lookup
end_declaration bound d =
    let declaration = drop d.stream.op_index (take d.stream.insert_index d.stream.words) in
    let id = get_or declaration d.id_index 0 in
    let key = set declaration d.id_index 0 in
    if ltb d.id_index (length declaration)
    then end_lookup (find key d.existing_declarations) key id bound d
    else fault out_of_bounds

module _ ⦃p : Platform⦄ where
  -- The shared shape of the methods that declare: `emit` on a `Declarations`.
  unfoldable pub declare : Emission → ℕ → Declarations → Outcome (SpvId × ℕ × Declarations)
  declare e bound d = do
    assert e.asserts
    (bound', s') ← put_head e.head bound (reserve e.num_words d.stream)
    s'' ← put_all e.operands s'
    end_declaration bound' (record d { stream = s''; id_index = index_of e.head })
