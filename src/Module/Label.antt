-- ===== src/Module/Label.antt =====
-- `AddLabel`: a label's two words, and that no room is left behind them.
use mathlib.Core.Path.{subst, fun_ext}
use sirit.Base.{
  ℕ, ◌-◌, ◌≡◌, refl, sym, ap, ◌∙◌, true, List, [], ◌∷◌, ◌++◌, arith, length, drop, length-append,
  length-drop, length-replicate, replicate, Outcome, ok, ◌>>=◌, >>=_assoc, ◌+◌, ◌%◌, ◌^◌, ◌<◌,
}
use sirit.Spirv.{Op, Platform}
use sirit.Stream.{SpvId, valid_id, Stream, contents, push_word}
use sirit.Stream.Words.{
  at, view, contents-at, pad, length-pad, reserve-at, push_words, push_words-at, push_words_one,
}
use sirit.Emission.Runs.{slack, IsInside}
use sirit.Module.{Module, add_label, make_word0, add_new_label, op_label}

two_words {ℓ} :
    {B : Type ℓ} (a b : ℕ) (s : Stream) (k : Stream → Outcome B)
    → (push_word a s >>= λ t. push_word b t >>= k) ≡ (push_words (a ∷ b ∷ []) s >>= k)
unfolding push_words
two_words a b s k =
    sym (>>=_assoc (push_word a s) (push_word b) k)
    ∙ ap (λ f. (push_word a s >>= f) >>= k) (fun_ext (λ t. sym (push_words_one b t)))

module _ ⦃p : Platform⦄ where
  abbrev pub label_words : SpvId → List ℕ
  label_words label = make_word0 Op.op_label 2 ∷ label.value ∷ []

  pub record Labelled (label : SpvId) (m m' : Module) : Type 0 where
    pub runs : add_label label m ≡ ok (label, m')
    pub only_code : m' ≡ record m { code = m'.code }
    pub appends : contents m'.code ≡ contents m.code ++ label_words label
    pub inside : IsInside m'.code
    pub room : slack m'.code ≡ slack m.code - 2

  add_label-at :
      (label : SpvId) (m : Module) (front room : List ℕ) (op : ℕ)
      → valid_id label ≡ true
      → (m' : Module) × Labelled label (record m { code = at front room op }) m'
  unfolding add_label
  add_label-at label m front room op h = (
    after,
    record {
      runs =
          rw (h, reserve-at)
            (two_words _ _ (at front (pad 2 room) op) (λ s'. ok (label, record m { code = s' }))
              ∙ ap (λ o. o >>= λ s'. ok (label, record m { code = s' }))
                  (push_words-at (label_words label) front (pad 2 room) op
                    (omega (arith, length-pad 2 room))));
      only_code = refl;
      appends =
          contents-at _ _ _ ∙ ap (λ l. l ++ label_words label) (sym (contents-at front room op));
      inside = omega (arith, length-append (front ++ label_words label) (drop 2 (pad 2 room)));
      room = omega (
        arith,
        length-append (front ++ label_words label) (drop 2 (pad 2 room)),
        length-append front room,
        length-drop 2 (pad 2 room),
        length-append room (replicate (2 - length room) 0),
        length-replicate {A = ℕ} (2 - length room) 0,
      );
    },
  )
    where
      after : Module
      after = record m { code = at (front ++ label_words label) (drop 2 (pad 2 room)) op }

  -- With a valid label `AddLabel` runs on every module whose code's cursor is within the vector,
  -- changes the code only, and appends the label to it. Room of up to two words behind the cursor
  -- is used up.
  pub add_label_lem :
      (label : SpvId) (m : Module)
      → valid_id label ≡ true
      → IsInside m.code
      → (m' : Module) × Labelled label m m'
  add_label_lem label m h inside =
      subst (λ s. (m' : Module) × Labelled label (record m { code = s }) m')
        (sym (view m.code inside))
        (add_label-at label m (contents m.code) (drop m.code.insert_index m.code.words)
          m.code.op_index h)

  -- `AddLabel()` takes the next id and appends a label with it, if the counter is below 2 ^ 32 - 1
  -- and the code's cursor within the vector.
  add_new_label_lem :
      (m : Module)
      → m.bound + 1 < 2 ^ 32
      → IsInside m.code
      → (m' : Module) × (add_new_label m ≡ ok (record { value = m.bound + 1 }, m'))
        × (m'.bound ≡ m.bound + 1)
        × (contents m'.code ≡ contents m.code ++ label_words (record { value = m.bound + 1 }))
  unfolding add_new_label op_label
  add_new_label_lem m small inside =
      let label : SpvId = record { value = m.bound + 1 } in
      let (m', w) =
        add_label_lem label (record m { bound = m.bound + 1 }) (positive m.bound) inside in
      (
        m',
        ap (λ b. add_label (record { value = b }) (record m { bound = b })) no_wrap ∙ w.runs,
        ap (λ m. m.bound) w.only_code,
        w.appends,
      )
    where
      positive : (n : ℕ) → valid_id (record { value = n + 1 }) ≡ true
      positive n = ground arith

      no_wrap : (m.bound + 1) % 2 ^ 32 ≡ m.bound + 1
      no_wrap = omega arith
