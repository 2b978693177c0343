-- ===== src/Stream/Words.antt =====
-- Writing words into a stream, seen as the words before the cursor and the room behind it.
use sirit.Base.{
  ℕ, ◌+◌, ◌-◌, ◌≤◌, ◌<◌, ◌≡◌, refl, sym, ap, ◌∙◌, List, [], ◌∷◌, ◌++◌, append-nil, append_assoc,
  arith, leb, lt→ltb, Bool-cases, true, inl, inr, length, set, drop, replicate, length-append,
  length-replicate, take-append, take-append-drop, length-take, Outcome, ok, fault, out_of_bounds,
  ◌>>=◌, >>=-ok, >>=_assoc,
}
use mathlib.Core.Path.{fun_ext}
use sirit.Base.{set-append, get_or-append}
use sirit.Stream.{get_value, set_value, Stream, push_word, reserve, contents}

-- The stream that holds `front`, with `room` allocated behind the cursor.
abbrev pub at : List ℕ → List ℕ → ℕ → Stream
at front room op = record { words = front ++ room; insert_index = length front; op_index = op }

-- The words in a row.
unfoldable pub push_words : List ℕ → Stream → Outcome Stream
push_words [] s = ok s
push_words (w ∷ ws) s = push_word w s >>= push_words ws

pub push_words-append :
    (xs ys : List ℕ) (s : Stream) → push_words (xs ++ ys) s ≡ (push_words xs s >>= push_words ys)
unfolding push_words
push_words-append [] ys s = refl
push_words-append (x ∷ xs) ys s =
    ap (λ f. push_word x s >>= f) (fun_ext (push_words-append xs ys))
    ∙ sym (>>=_assoc (push_word x s) (push_words xs) (push_words ys))

pub push_words_one : (w : ℕ) (s : Stream) → push_words (w ∷ []) s ≡ push_word w s
unfolding push_words
push_words_one w s = >>=-ok (push_word w s)

set_at :
    (front room : List ℕ) (j v : ℕ)
    → set (front ++ (j ∷ room)) (length front) v ≡ front ++ (v ∷ room)
set_at [] room j v = refl
set_at (x ∷ front) room j v = ap (λ l. x ∷ l) (set_at front room j v)

push_word-at :
    (front room : List ℕ) (op j v : ℕ)
    → push_word v (at front (j ∷ room) op) ≡ ok (at (front ++ (v ∷ [])) room op)
unfolding push_word
push_word-at front room op j v =
    rw
      (lt→ltb (length front) (length (front ++ (j ∷ room)))
        (omega (arith, length-append front (j ∷ room))))
      (λ i. ok (record {
        words = (set_at front room j v ∙ sym (append_assoc front (v ∷ []) room)) i;
        insert_index = len i;
        op_index = op;
      }))
  where
    len : length front + 1 ≡ length (front ++ (v ∷ []))
    len = omega (arith, length-append front (v ∷ []))

push_word-full : (front : List ℕ) (op v : ℕ) → push_word v (at front [] op) ≡ fault out_of_bounds
unfolding push_word
push_word-full front op v = ground (arith, length-append front [])

-- With room for them the words are appended, and use up as much room.
pub push_words-at :
    (ws front room : List ℕ) (op : ℕ)
    → length ws ≤ length room
    → push_words ws (at front room op) ≡ ok (at (front ++ ws) (drop (length ws) room) op)
unfolding push_words
push_words-at [] front room op h = ap (λ l. ok (at l room op)) (sym (append-nil front))
push_words-at (w ∷ ws) front [] op h = absurd (omega arith)
push_words-at (w ∷ ws) front (j ∷ room) op h = rw (push_word-at front room op j w) (
    push_words-at ws (front ++ (w ∷ [])) room op (omega arith)
    ∙ ap (λ l. ok (at l (drop (length ws) room) op)) (append_assoc front (w ∷ []) ws))

-- Without, the write leaves the vector.
pub push_words_overflow :
    (ws front room : List ℕ) (op : ℕ)
    → length room < length ws
    → push_words ws (at front room op) ≡ fault out_of_bounds
unfolding push_words
push_words_overflow [] front room op h = absurd (omega arith)
push_words_overflow (w ∷ ws) front [] op h = rw (push_word-full front op w)
push_words_overflow (w ∷ ws) front (j ∷ room) op h =
    rw (push_word-at front room op j w)
      (push_words_overflow ws (front ++ (w ∷ [])) room op (omega arith))

-- The room after `Reserve`.
abbrev pub pad : ℕ → List ℕ → List ℕ
pad n room = room ++ replicate (n - length room) 0

pub length-pad :
    (n : ℕ) (room : List ℕ)
    → (n ≤ length (pad n room))
      × (length room ≤ length (pad n room))
      × (length (pad n room) ≤ length room + n)
length-pad n room = omega (
  arith,
  length-append room (replicate (n - length room) 0),
  length-replicate {A = ℕ} (n - length room) 0,
)

pub reserve-at :
    (n : ℕ) (front room : List ℕ) (op : ℕ) → reserve n (at front room op) ≡ at front (pad n room) op
unfolding reserve
reserve-at n front room op = elim (Bool-cases (leb (length front + n) (length (front ++ room)))) [
  | inl e ↦ rw e (
      ap (λ l. at front l op)
        (sym (append-nil room) ∙ ap (λ k. room ++ replicate k 0) (none_missing e)))
  | inr e ↦ rw e (λ i. record { words = grown i; insert_index = length front; op_index = op })
]
  where
    none_missing : leb (length front + n) (length (front ++ room)) ≡ true → 0 ≡ n - length room
    none_missing e = ground (arith, length-append front room)

    missing : length front + n - length (front ++ room) ≡ n - length room
    missing = omega (arith, length-append front room)

    grown :
        front ++ room ++ replicate (length front + n - length (front ++ room)) 0
        ≡ front ++ pad n room
    grown = append_assoc front room _ ∙ ap (λ k. front ++ (room ++ replicate k 0)) missing

pub contents-at : (front room : List ℕ) (op : ℕ) → contents (at front room op) ≡ front
unfolding contents
contents-at front room op = take-append front room

-- Every stream whose cursor is within its vector is of this form.
pub view :
    (s : Stream)
    → s.insert_index ≤ length s.words
    → s ≡ at (contents s) (drop s.insert_index s.words) s.op_index
unfolding contents
view s h = λ i. record {
  words = sym (take-append-drop s.insert_index s.words) i;
  insert_index = sym (length-take s.insert_index s.words h) i;
  op_index = s.op_index;
}

-- Reading and writing the word behind `pre`.
pub set_value_lem :
    (words pre back : List ℕ) (x v i o k : ℕ)
    → words ≡ pre ++ (x ∷ back)
    → k ≡ length pre + 0
    → set_value k v (record { words = words; insert_index = i; op_index = o })
      ≡ ok (record { words = pre ++ (v ∷ back); insert_index = i; op_index = o })
unfolding set_value
set_value_lem words pre back x v i o k e h = rw (
  lt→ltb k (length words) (omega (arith, ap length e, length-append pre (x ∷ back))),
  e,
  h,
  set-append pre (x ∷ back) 0 v,
)

pub get_value_lem :
    (words pre back : List ℕ) (x i o k : ℕ)
    → words ≡ pre ++ (x ∷ back)
    → k ≡ length pre + 0
    → get_value k (record { words = words; insert_index = i; op_index = o }) ≡ ok x
unfolding get_value
get_value_lem words pre back x i o k e h = rw (
  lt→ltb k (length words) (omega (arith, ap length e, length-append pre (x ∷ back))),
  e,
  h,
  get_or-append pre (x ∷ back) 0 0,
)
