-- ===== src/Module/Phi/Deferred.antt =====
-- A deferred phi from its declaration to its patching: where its node points, and what the patched
-- words are.
use sirit.Base.{
  ℕ, suc, ◌+◌, ◌-◌, ◌*◌, ◌%◌, ◌^◌, ◌≤◌, ◌≡◌, refl, ap, ◌∙◌, true, List, [], ◌∷◌, ◌++◌, arith,
  length, ok, ◌>>=◌,
}
use sirit.Spirv.{Op, Platform}
use sirit.Stream.{SpvId, valid_id, Stream, contents, local_address}
use sirit.Stream.Operands.{valid_ids, all_valid, ids_words, operands_words}
use sirit.Stream.Heads.{header}
use sirit.Emission.{Emission}
use sirit.Emission.Exact.{accepted, instruction}
use sirit.Emission.Size.{written, sizes}
use sirit.Emission.Runs.{slack, IsInside, Emitted, emit_runs}
use sirit.Module.{Module}
use sirit.Module.Phi.{phi_operands, deferred_phi, deferred_op_phi}
use sirit.Module.Phi.Patch.{pair_words, length-pair_words, fill, phi_words}

-- The pairs of a phi that is not patched yet.
abbrev pub unpatched : List SpvId → List (ℕ × ℕ)
unpatched [] = []
unpatched (b ∷ bs) = (0, b.value) ∷ unpatched bs

pub length-unpatched : (blocks : List SpvId) → length (unpatched blocks) ≡ length blocks
length-unpatched [] = refl
length-unpatched (b ∷ bs) = ap suc (length-unpatched bs)

-- The operands that `OpPhi` takes, with the callback's values.
abbrev pub phi_arguments : {S : Type 0} → (ℕ → S → SpvId × S) → ℕ → S → List SpvId → List SpvId
phi_arguments func arg st [] = []
phi_arguments func arg st (b ∷ bs) =
    let (i, st') = func arg st in i ∷ b ∷ phi_arguments func (arg + 1) st' bs

pub fill-phi_arguments :
    {S : Type 0} (func : ℕ → S → SpvId × S) (blocks : List SpvId) (arg : ℕ) (st : S)
    → pair_words (fill func arg st (unpatched blocks)).1
      ≡ ids_words (phi_arguments func arg st blocks)
fill-phi_arguments func [] arg st = refl
fill-phi_arguments func (b ∷ bs) arg st =
    ap (λ l. (func arg st).0.value ∷ b.value ∷ l)
      (fill-phi_arguments func bs (arg + 1) (func arg st).1)

sizes-phi_operands : (blocks : List SpvId) → sizes (phi_operands blocks) ≡ 2 * length blocks
sizes-phi_operands [] = refl
sizes-phi_operands (b ∷ bs) = omega (arith, sizes-phi_operands bs)

all_valid-phi_operands :
    (blocks : List SpvId) → valid_ids blocks ≡ true → all_valid (phi_operands blocks) ≡ true
all_valid-phi_operands [] h = refl
all_valid-phi_operands (b ∷ bs) h = ground (arith, all_valid-phi_operands bs)

module _ ⦃p : Platform⦄ where
  phi_operands-words :
      (blocks : List SpvId) → operands_words (phi_operands blocks) ≡ pair_words (unpatched blocks)
  phi_operands-words [] = refl
  phi_operands-words (b ∷ bs) = ap (λ l. 0 ∷ b.value ∷ l) (phi_operands-words bs)

  -- What `DeferredOpPhi` leaves behind.
  pub record Deferred (t : SpvId) (blocks : List SpvId) (m m' : Module) : Type 0 where
    pub runs : deferred_op_phi t blocks m ≡ ok (record { value = (m.bound + 1) % 2 ^ 32 }, m')
    pub appends :
        contents m'.code
        ≡ contents m.code
          ++ phi_words (p.op_code Op.op_phi) t.value ((m.bound + 1) % 2 ^ 32) (unpatched blocks)
    pub only : m' ≡ record m {
      bound = (m.bound + 1) % 2 ^ 32;
      code = m'.code;
      deferred_phi_nodes = m.deferred_phi_nodes ++ (local_address m.code ∷ []);
    }
    pub notes : m'.deferred_phi_nodes ≡ m.deferred_phi_nodes ++ (local_address m.code ∷ [])
    pub inside : IsInside m'.code
    pub room : slack m'.code ≡ slack m.code - (3 + 2 * length blocks)

  written-deferred_phi :
      (t : SpvId) (blocks : List SpvId) → written (deferred_phi t blocks) ≡ 3 + 2 * length blocks
  unfolding deferred_phi
  written-deferred_phi t blocks = omega (arith, sizes-phi_operands blocks)

  -- the instruction of a deferred phi
  instruction-deferred_phi :
      (t : SpvId) (blocks : List SpvId) (bound : ℕ)
      → instruction (deferred_phi t blocks) bound
        ≡ phi_words (p.op_code Op.op_phi) t.value ((bound + 1) % 2 ^ 32) (unpatched blocks)
  unfolding deferred_phi
  instruction-deferred_phi t blocks bound =
      ap
        (λ l.
          header (p.op_code Op.op_phi) (suc (suc (suc (length l))))
          ∷ t.value
          ∷ (bound + 1) % 2 ^ 32
          ∷ l)
        (phi_operands-words blocks)
      ∙ ap
          (λ n.
            header (p.op_code Op.op_phi) n
            ∷ t.value
            ∷ (bound + 1) % 2 ^ 32
            ∷ pair_words (unpatched blocks))
          {x = suc (suc (suc (length (pair_words (unpatched blocks)))))}
          {y = 3 + 2 * length (unpatched blocks)}
          (omega (arith, length-pair_words (unpatched blocks)))

  -- With valid ids `DeferredOpPhi` runs on any module whose code's cursor is within the vector,
  -- appends a phi whose values are 0, and notes `LocalAddress`.
  pub deferred_op_phi_lem :
      (t : SpvId) (blocks : List SpvId) (m : Module)
      → valid_id t ≡ true
      → valid_ids blocks ≡ true
      → IsInside m.code
      → (m' : Module) × Deferred t blocks m m'
  unfolding deferred_op_phi deferred_phi
  deferred_op_phi_lem t blocks m ht hb inside = (
    after,
    record {
      runs =
          ap
            (λ o. o >>= λ (i, b, s).
              ok (i, record m { bound = b; code = s; deferred_phi_nodes = nodes }))
            w.runs;
      appends =
          w.appends ∙ ap (λ l. contents m.code ++ l) (instruction-deferred_phi t blocks m.bound);
      only = refl;
      notes = refl;
      inside = w.inside;
      room = omega (arith, w.room, written-deferred_phi t blocks, reserved);
    },
  )
    where
      e : Emission
      e = deferred_phi t blocks

      nodes : List ℕ
      nodes = m.deferred_phi_nodes ++ (local_address m.code ∷ [])

      reserved : e.num_words ≡ 3 + length blocks * 2
      reserved = refl

      enough : written e ≤ e.num_words
      enough = omega (arith, written-deferred_phi t blocks, reserved)

      valid : accepted e ≡ true
      valid = ground (arith, ht, all_valid-phi_operands blocks hb)

      s' : Stream
      s' = (emit_runs e m.bound m.code enough valid inside).0

      w : Emitted e m.bound m.code s'
      w = (emit_runs e m.bound m.code enough valid inside).1

      after : Module
      after = record m { bound = (m.bound + 1) % 2 ^ 32; code = s'; deferred_phi_nodes = nodes }
