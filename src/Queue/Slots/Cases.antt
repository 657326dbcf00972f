-- ===== src/Queue/Slots/Cases.antt =====
-- What the callers of src/libgilberta/queue.c learn from each result: the queue's elements before
-- and after, in every case.
use native.Mathlib.Nat.{mod-eq_of_lt}
use libgilberta.Base.{
  ℕ, suc, ◌+◌, ◌-◌, ◌%◌, ◌^◌, ◌≤◌, ◌<◌, ◌≡◌, ◌≢◌, refl, sym, ap, ap₂, ◌∙◌, List, [], ◌∷◌, ◌++◌,
  Option, none, some, ◌>>=◌, true, arith, length, length-set, length-replicate, get_elem?-set_self,
  get_elem?-set_ne, ◌==◌, dec_lt,
}
use libgilberta.Queue.Fifo
use libgilberta.Queue.Window.{cons?, window, window_ext, window_cong, mod-distinct}
use libgilberta.Queue.Slots.{Queue, init, slot, push, pop, peek, poke}
use libgilberta.Queue.Slots.Laws.{
  contents, popped, IsValid, head-written, pop-live, rest_start, peek_refines, contents-pushed,
  push-room,
}

module _ {ℓ} {A : Type ℓ} {q : Queue A} (v : IsValid q) where
  peek-none : ¬ (0 < q.length) → peek q ≡ none
  unfolding peek
  peek-none h = let e : (q.length == 0) ≡ true = ground arith in rw e

  -- A peek that finds an element tells that the queue is not empty.
  pub live_of_peek : {x : A} → peek q ≡ some x → 0 < q.length
  live_of_peek {x} e = elim (dec_lt 0 q.length) [
    | yes live ↦ live
    | no empty ↦ absurd (none≢some (sym (peek-none empty) ∙ e))
  ]
    where
      none≢some : {a : A} → ◌≢◌ {A = Option A} none (some a)
      none≢some e = ground arith

  -- Behind the element that a peek finds are those that a pop leaves.
  pub contents-peek : {x : A} → peek q ≡ some x → contents q ≡ x ∷ contents (pop q).2
  unfolding Fifo.peek
  contents-peek {x} e =
      let live = live_of_peek e in
      let (y, written, split) = head-written v live in
      let same : some y ≡ some x =
        sym (ap (λ c. (Fifo.peek c).1) split) ∙ sym (peek_refines q v) ∙ e in
      rw (pop-live v live) (ground (arith, split, same))

  module _ (live : 0 < q.length) (y : A) where
    slot-poke_self : slot (poke q y) q.head ≡ some y
    unfolding slot poke
    slot-poke_self =
        ap (λ o. o >>= λ s. s)
          (get_elem?-set_self q.pool q.head (some y) (omega (arith, v.head_in, v.storage)))

    slot-poke_ne : (i : ℕ) → i ≢ q.head → slot (poke q y) i ≡ slot q i
    unfolding slot poke
    slot-poke_ne i ne =
        ap (λ o. o >>= λ s. s) (get_elem?-set_ne q.pool q.head i (some y) (λ e. ne (sym e)))

    -- The slots after the head are another's.
    others : (i : ℕ) → i < q.length - 1 → (suc q.head + i) % q.capacity ≢ q.head
    others i lt e =
        let apart =
          mod-distinct q.head q.capacity 0 (suc i) v.head_in (omega arith)
            (omega (arith, v.length_in)) in
        let first : q.head + 0 ≡ q.head = omega arith in
        let later : q.head + suc i ≡ suc q.head + i = omega arith in
        apart (
          ap (λ t. t % q.capacity) first
          ∙ mod-eq_of_lt v.head_in
          ∙ sym e
          ∙ ap (λ t. t % q.capacity) (sym later))

    -- A write through the pointer that a peek gave replaces the oldest element.
    pub contents-poke : contents (poke q y) ≡ y ∷ contents (pop q).2
    unfolding poke slot
    contents-poke =
        let length_suc : q.length ≡ suc (q.length - 1) = omega arith in
        rw (pop-live v live) (
          ap (λ n. window (slot (poke q y)) q.capacity q.head n) length_suc
          ∙ ap₂ cons? (ap (slot (poke q y)) (mod-eq_of_lt v.head_in) ∙ slot-poke_self) (
              window_ext (slot (poke q y)) (slot q) q.capacity (suc q.head) (q.length - 1)
                (λ i lt. slot-poke_ne ((suc q.head + i) % q.capacity) (others i lt))
              ∙ window_cong (slot q) q.capacity (suc q.head) ((q.head + 1) % q.capacity)
                  (q.length - 1) (rest_start v live)))

    pub poke-IsValid : IsValid (poke q y)
    unfolding poke
    poke-IsValid =
        let behind : contents (poke q y) ≡ y ∷ contents (popped q) =
          contents-poke ∙ ap (λ r. y ∷ contents r.2) (pop-live v live) in
        record {
          storage = length-set q.pool q.head (some y) ∙ v.storage;
          indices = v.indices;
          head_in = v.head_in;
          length_in = v.length_in;
          written = ap length behind ∙ sym (ap length (head-written v live).2) ∙ v.written;
        }

    pub peek-poke : peek (poke q y) ≡ some y
    unfolding Fifo.peek
    peek-poke = peek_refines (poke q y) poke-IsValid ∙ ap (λ c. (Fifo.peek c).1) contents-poke

  -- A push with room appends, one without room changes nothing.
  pub contents-push-room :
      (x : A) → q.length < q.capacity → contents (push q x).1 ≡ contents q ++ x ∷ []
  contents-push-room x room = rw (push-room v room x) (contents-pushed v room x)

  -- The number of elements is the `length` field.
  pub length-contents : length (contents q) ≡ q.length
  length-contents = v.written

-- What a pop leaves after such a write is what it left before.
pub pop-poke {ℓ} :
    {A : Type ℓ} {q : Queue A} (v : IsValid q) (live : 0 < q.length) (y : A)
    → contents (pop (poke q y)).2 ≡ contents (pop q).2
pop-poke {A = A} {q = q} v live y =
    cons_injective
      (sym (contents-peek (poke-IsValid v live y) (peek-poke v live y)) ∙ contents-poke v live y)
  where
    cons_injective : {xs ys : List A} → y ∷ xs ≡ y ∷ ys → xs ≡ ys
    cons_injective e = ground arith

-- A write through the head's address does no harm to an empty queue either.
pub poke_any-IsValid {ℓ} : {A : Type ℓ} (q : Queue A) (y : A) → IsValid q → IsValid (poke q y)
unfolding poke
poke_any-IsValid {A = A} q y v = elim (dec_lt 0 q.length) [
  | yes live ↦ poke-IsValid v live y
  | no empty ↦
      let over : length (window (slot (poke q y)) q.capacity q.head q.length) ≡ q.length =
        nothing (omega arith) in
      record {
        storage = length-set q.pool q.head (some y) ∙ v.storage;
        indices = v.indices;
        head_in = v.head_in;
        length_in = v.length_in;
        written = over;
      }
]
  where
    nothing : q.length ≡ 0 → length (window (slot (poke q y)) q.capacity q.head q.length) ≡ q.length
    nothing e = rw e refl

-- A new queue is valid and empty.
pub init-IsValid {ℓ} :
    {A : Type ℓ} (block room : ℕ) → 0 < room → room ≤ 2 ^ 31 → IsValid (init {A = A} block room)
unfolding init
init-IsValid {A = A} block room pos small = record {
  storage = length-replicate {A = Option A} room none;
  indices = small;
  head_in = pos;
  length_in = omega arith;
  written = refl;
}

pub contents-init {ℓ} : {A : Type ℓ} (block room : ℕ) → contents (init {A = A} block room) ≡ []
unfolding init
contents-init block room = refl
