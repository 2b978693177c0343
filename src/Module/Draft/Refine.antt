-- ===== src/Module/Draft/Refine.antt =====
-- Every method that is one chain does to a module what it does to its draft.
use mathlib.Core.Path.{ap₂}
use sirit.Base.{
  ℕ, ◌≡◌, sym, ap, ◌∙◌, false, inl, inr, Bool-cases, List, [], ◌∷◌, ◌++◌, append-nil, arith, concat,
  concat-append, All, All-append, Option,
}
use sirit.Spirv.{Platform}
use sirit.Stream.{SpvId, Stream, contents}
use sirit.Stream.Heads.{head_bound}
use sirit.Emission.{Section, declarations, Emission}
use sirit.Emission.Exact.{instruction}
use sirit.Emission.Size.{word_count-written}
use sirit.Module.Assemble.Layout.{header-IsInstruction}
use sirit.Emission.Runs.{Emitted}
use sirit.Module.{Module}
use sirit.Module.Assemble.Parse.{IsInstruction}
use sirit.Module.Valid.{IsCall}
use sirit.Module.Draft.{Draft, write}
use sirit.Module.Streams.{
  same, stream_of, put_stream, stream_of-put_stream, declarations-put_stream, bound-put_stream,
  same→eq, stream_of-bound, front, front-put_stream, Front, stream_of-front,
}

module _ ⦃p : Platform⦄ where
  -- The module is what the draft says, in words.
  pub record IsDrafted (m : Module) (d : Draft) : Type 0 where
    pub bound : m.bound ≡ d.bound
    pub table : m.declarations.existing_declarations ≡ d.table
    pub holds : (s : Section) → contents (stream_of s m) ≡ concat (d.written s)
    pub whole : (s : Section) → All IsInstruction (d.written s)
    pub front :
        front m ≡ (d.capabilities, d.extensions, d.addressing_model, d.memory_model, d.glsl_std_450)

  pub kept-IsDrafted :
      (m : Module) (d : Draft) (cs cs' : List ℕ) (xs xs' : List (List ℕ)) (a a' b b' : ℕ)
      (g g' : Option SpvId)
      → IsDrafted m d
      → ◌≡◌ {A = Front} (cs, xs, a, b, g) (cs', xs', a', b', g')
      → IsDrafted
          (record m {
            capabilities = cs;
            extensions = xs;
            addressing_model = a;
            memory_model = b;
            glsl_std_450 = g;
          })
          (record d {
            capabilities = cs';
            extensions = xs';
            addressing_model = a';
            memory_model = b';
            glsl_std_450 = g';
          })
  kept-IsDrafted m d cs cs' xs xs' a a' b b' g g' h same = record {
    bound = h.bound;
    table = h.table;
    holds = λ s. ap (λ s. contents s) (stream_of-front s cs xs a b g m) ∙ h.holds s;
    whole = h.whole;
    front = same;
  }

  pub call-IsInstruction :
      (e : Emission) (bound : ℕ) → IsCall e → IsInstruction (instruction e bound)
  call-IsInstruction e bound c =
      header-IsInstruction _ _ (p.op_code-lt _) (omega (arith, c.short, word_count-written e bound))

  pub write-holds :
      (k s : Section) (w : List ℕ) (x : Stream) (m : Module) (written : Section → List (List ℕ))
      → ((s : Section) → contents (stream_of s m) ≡ concat (written s))
      → contents x ≡ contents (stream_of k m) ++ w
      → contents (stream_of s (put_stream k x m)) ≡ concat (write k w written s)
  write-holds k s w x m written h grown =
      ap (λ s. contents s) (stream_of-put_stream k s x m) ∙ elim (Bool-cases (same s k)) [
        | inl e ↦ rw e (
            grown
            ∙ ap (λ l. l ++ w) (ap (λ k. contents (stream_of k m)) (sym (same→eq s k e)) ∙ h s)
            ∙ ap (λ l. concat (written s) ++ l) (sym (append-nil w))
            ∙ sym (concat-append (written s) (w ∷ [])))
        | inr e ↦ rw e (h s)
      ]

  pub write-IsInstruction :
      (k s : Section) (w : List ℕ) (written : Section → List (List ℕ))
      → ((s : Section) → All IsInstruction (written s))
      → IsInstruction w
      → All IsInstruction (write k w written s)
  write-IsInstruction k s w written h hw = elim (Bool-cases (same s k)) [
    | inl e ↦ rw e (All-append IsInstruction (written s) (w ∷ []) (h s) (hw, tt))
    | inr e ↦ rw e (h s)
  ]

  -- A call on a stream.
  pub stream-IsDrafted :
      (k : Section) (e : Emission) (m : Module) (d : Draft) (s : Stream)
      → same k declarations ≡ false
      → IsCall e
      → IsDrafted m d
      → Emitted e m.bound (stream_of k m) s
      → IsDrafted (put_stream k s (record m { bound = head_bound e.head m.bound })) (record d {
        bound = head_bound e.head d.bound;
        written = write k (instruction e d.bound) d.written;
      })
  stream-IsDrafted k e m d s h c v w =
      let m1 = record m { bound = head_bound e.head m.bound } in
      record {
        bound = bound-put_stream k s m1 ∙ ap (head_bound e.head) v.bound;
        table = ap (λ d. d.existing_declarations) (declarations-put_stream k s m1 h) ∙ v.table;
        holds = λ s'.
            write-holds k s' (instruction e d.bound) s m1 d.written
              (λ s.
                ap (λ s. contents s) (stream_of-bound s (head_bound e.head m.bound) m) ∙ v.holds s)
              (w.appends
                ∙ ap₂ (λ (s : Stream) b. contents s ++ instruction e b)
                    (sym (stream_of-bound k (head_bound e.head m.bound) m)) v.bound);
        whole = λ s'.
            write-IsInstruction k s' (instruction e d.bound) d.written v.whole
              (call-IsInstruction e d.bound c);
        front = front-put_stream k s m1 ∙ v.front;
      }
