-- ===== src/Queue/Slots/Laws.antt =====
-- The queue of elements is the bounded FIFO: what callers of src/libgilberta/queue.c may rely on.
use native.Mathlib.Nat.{mod-lt, mod-eq_of_lt, mod-mod}
use libgilberta.Base.{
  ℕ, zero, suc, ◌+◌, ◌-◌, ◌%◌, ◌^◌, ◌≤◌, ◌<◌, ◌≡◌, ◌≢◌, refl, sym, ap, ap₂, ◌∙◌, List, [], ◌∷◌,
  ◌++◌, Option, none, some, ◌>>=◌, true, false, arith, length, set, length-set, length-append,
  get_elem?-set_self, get_elem?-set_ne, leb, ◌==◌, dec_lt,
}
use libgilberta.Base.Words.{u32}
use libgilberta.Status.{success, queue_full, queue_empty}
use libgilberta.Queue.Fifo
use libgilberta.Queue.Window.{cons?, window, window_ext, window-suc, window_cong, mod-distinct}
use libgilberta.Queue.Slots.{Queue, slot, push, pop, peek}

module _ {ℓ} {A : Type ℓ} where
  -- The elements, oldest first.
  abbrev pub contents : Queue A → List A
  contents q = window (slot q) q.capacity q.head q.length

  pub length-window-le : (f : ℕ → Option A) (size h n : ℕ) → length (window f size h n) ≤ n
  length-window-le f size h zero = omega arith
  length-window-le f size h (suc n) = ground (arith, length-window-le f size (suc h) n)

  abbrev pub pushed : Queue A → A → Queue A
  pushed q x = record q {
    pool = set q.pool ((q.head + q.length) % q.capacity) (some x);
    length = q.length + 1;
  }

  abbrev pub popped : Queue A → Queue A
  popped q = record q { head = (q.head + 1) % q.capacity; length = q.length - 1 }

-- The pool has `capacity` slots, the window is inside it, and its slots are written.
pub record IsValid {ℓ} {A : Type ℓ} (q : Queue A) : Type ℓ where
  pub storage : length q.pool ≡ q.capacity
  pub indices : q.capacity ≤ 2 ^ 31
  pub head_in : q.head < q.capacity
  pub length_in : q.length ≤ q.capacity
  pub written : length (contents q) ≡ q.length

module _ {ℓ} {A : Type ℓ} {q : Queue A} (v : IsValid q) where
  module _ (room : q.length < q.capacity) (x : A) where
    tail_in : (q.head + q.length) % q.capacity < q.capacity
    tail_in = mod-lt (q.head + q.length) (omega (arith, v.head_in))

    slot-pushed_self : slot (pushed q x) ((q.head + q.length) % q.capacity) ≡ some x
    unfolding slot
    slot-pushed_self =
        ap (λ o. o >>= λ s. s)
          (get_elem?-set_self q.pool ((q.head + q.length) % q.capacity) (some x)
            (omega (arith, tail_in, v.storage)))

    slot-pushed_ne : (i : ℕ) → i ≢ (q.head + q.length) % q.capacity → slot (pushed q x) i ≡ slot q i
    unfolding slot
    slot-pushed_ne i ne =
        ap (λ o. o >>= λ s. s)
          (get_elem?-set_ne q.pool ((q.head + q.length) % q.capacity) i (some x) (λ e. ne (sym e)))

    pub contents-pushed : contents (pushed q x) ≡ contents q ++ x ∷ []
    contents-pushed =
        ap (λ n. window (slot (pushed q x)) q.capacity q.head n) length_suc
        ∙ window-suc (slot (pushed q x)) q.capacity q.head q.length
        ∙ ap₂ ◌++◌
            (window_ext (slot (pushed q x)) (slot q) q.capacity q.head q.length λ i lt.
              slot-pushed_ne ((q.head + i) % q.capacity)
                (mod-distinct q.head q.capacity i q.length v.head_in lt room))
            (ap (λ o. cons? o []) slot-pushed_self)
      where
        length_suc : q.length + 1 ≡ suc q.length
        length_suc = omega arith

    pub pushed-IsValid : IsValid (pushed q x)
    pushed-IsValid = record {
      storage = length-set q.pool ((q.head + q.length) % q.capacity) (some x) ∙ v.storage;
      indices = v.indices;
      head_in = v.head_in;
      length_in = omega arith;
      written =
          ap length contents-pushed
          ∙ length-append (contents q) (x ∷ [])
          ∙ ap (λ n. n + 1) v.written;
    }

    pub push-room : push q x ≡ (success, pushed q x)
    unfolding push
    push-room =
        let not_full : leb q.capacity q.length ≡ false = ground arith in
        let tail : u32 (q.head + q.length) ≡ q.head + q.length =
          omega (arith, v.head_in, v.indices) in
        let count : u32 (q.length + 1) ≡ q.length + 1 = omega (arith, v.indices) in
        rw (not_full, tail, count)

  pub push-full : (x : A) → ¬ (q.length < q.capacity) → push q x ≡ (queue_full, q)
  unfolding push
  push-full x full = let is_full : leb q.capacity q.length ≡ true = ground arith in rw is_full

  module _ (live : 0 < q.length) where
    pub rest_start : suc q.head % q.capacity ≡ (q.head + 1) % q.capacity % q.capacity
    rest_start =
        let one : suc q.head ≡ q.head + 1 = omega arith in
        ap (λ t. t % q.capacity) one ∙ sym (mod-mod (q.head + 1) q.capacity)

    pub contents-split : contents q ≡ cons? (slot q q.head) (contents (popped q))
    unfolding slot
    contents-split =
        let length_suc : q.length ≡ suc (q.length - 1) = omega arith in
        ap (λ n. window (slot q) q.capacity q.head n) length_suc
        ∙ ap₂ cons? (ap (slot q) (mod-eq_of_lt v.head_in)) (
            window_cong (slot q) q.capacity (suc q.head) ((q.head + 1) % q.capacity) (q.length - 1)
              rest_start)

    -- The oldest slot is written.
    pub head-written : (x : A) × (slot q q.head ≡ some x) × (contents q ≡ x ∷ contents (popped q))
    unfolding slot
    head-written = go (slot q q.head) refl
      where
        go :
            (o : Option A)
            → slot q q.head ≡ o
            → (x : A) × (slot q q.head ≡ some x) × (contents q ≡ x ∷ contents (popped q))
        go none e = absurd (
            omega (
              arith,
              ap length (contents-split ∙ ap (λ o. cons? o (contents (popped q))) e),
              v.written,
              length-window-le (slot q) q.capacity ((q.head + 1) % q.capacity) (q.length - 1),
            ))
        go (some x) e = (x, e, contents-split ∙ ap (λ o. cons? o (contents (popped q))) e)

    popped-IsValid : IsValid (popped q)
    popped-IsValid = record {
      storage = v.storage;
      indices = v.indices;
      head_in = mod-lt (q.head + 1) (omega (arith, v.head_in));
      length_in = omega (arith, v.length_in);
      written = omega (arith, ap length head-written.2, v.written);
    }

    pub pop-live : pop q ≡ (success, slot q q.head, popped q)
    unfolding pop
    pop-live =
        let live_test : (q.length == 0) ≡ false = ground arith in
        let next : u32 (q.head + 1) ≡ q.head + 1 = omega (arith, v.head_in, v.indices) in
        rw (live_test, next)

    peek-live : peek q ≡ slot q q.head
    unfolding peek
    peek-live = let live_test : (q.length == 0) ≡ false = ground arith in rw live_test

  contents-empty : ¬ (0 < q.length) → contents q ≡ []
  contents-empty h = let e : q.length ≡ 0 = omega arith in ap (window (slot q) q.capacity q.head) e

  pop-empty : ¬ (0 < q.length) → pop q ≡ (queue_empty, none, q)
  unfolding pop
  pop-empty h = let e : (q.length == 0) ≡ true = ground arith in rw e

  peek-empty : ¬ (0 < q.length) → peek q ≡ none
  unfolding peek
  peek-empty h = let e : (q.length == 0) ≡ true = ground arith in rw e

module _ {ℓ} {A : Type ℓ} (q : Queue A) (v : IsValid q) where
  pub push-IsValid : (x : A) → IsValid (push q x).1
  push-IsValid x = elim (dec_lt q.length q.capacity) [
    | yes room ↦ rw (push-room v room x) (pushed-IsValid v room x)
    | no full ↦ rw (push-full v x full) v
  ]

  -- A push is the bounded FIFO's push of the contents.
  pub push_refines :
      (x : A) → let (s, q') = push q x in (s, contents q') ≡ Fifo.push q.capacity (contents q) x
  unfolding Fifo.push
  push_refines x = elim (dec_lt q.length q.capacity) [
    | yes room ↦
        let t : leb q.capacity (length (contents q)) ≡ false = ground (arith, v.written) in
        rw (t, push-room v room x) (ap (λ c. (success, c)) (contents-pushed v room x))
    | no full ↦
        let t : leb q.capacity (length (contents q)) ≡ true = ground (arith, v.written) in
        rw (t, push-full v x full)
  ]

  pub pop-IsValid : IsValid (pop q).2
  pop-IsValid = elim (dec_lt 0 q.length) [
    | yes live ↦ rw (pop-live v live) (popped-IsValid v live)
    | no empty ↦ rw (pop-empty v empty) v
  ]

  -- A pop is the FIFO's.
  pub pop_refines : let (s, out, q') = pop q in (s, out, contents q') ≡ Fifo.pop (contents q)
  unfolding Fifo.pop
  pop_refines = elim (dec_lt 0 q.length) [
    | yes live ↦
        let (x, e, c) = head-written v live in
        rw (pop-live v live, c) (ap (λ o. (success, o, contents (popped q))) e)
    | no empty ↦ rw (pop-empty v empty, contents-empty v empty)
  ]

  -- A peek is the FIFO's.
  pub peek_refines : peek q ≡ (Fifo.peek (contents q)).1
  unfolding Fifo.peek
  peek_refines = elim (dec_lt 0 q.length) [
    | yes live ↦ let (x, e, c) = head-written v live in rw (peek-live v live, c) e
    | no empty ↦ rw (peek-empty v empty, contents-empty v empty)
  ]
