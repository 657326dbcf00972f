-- ===== src/Queue/Bytes/Refine.antt =====
-- The byte queue of src/libgilberta/queue.c, under its invariant, is the bounded FIFO of its
-- elements, each a string of `element_size` bytes.
use libgilberta.Base.{
  ℕ, ◌≡◌, refl, List, [], ◌∷◌, Option, none, some, ◌>>=◌, true, false, arith, length, replicate,
  length-replicate, All, leb, dec_lt, take-length,
}
use libgilberta.Base.Memory.{load}
use libgilberta.Status.{ErrorCode}
use libgilberta.Queue.Fifo
use libgilberta.Queue.Fifo.{Op, put, get, look}
use libgilberta.Queue.Bytes.{ByteQueue, push, pop, peek, source}
use libgilberta.Queue.Bytes.Valid.{IsValid, load-slot}
use libgilberta.Queue.Bytes.Contents.{
  contents, pushed, popped, contents-length, pushed-IsValid, contents-pushed, push-room, push-full,
  popped-IsValid, contents-popped, pop-live, peek-live, pop-empty, peek-empty, contents-empty,
}

-- What one call does: the status and the value of the FIFO's call, and a valid queue of the same
-- shape that holds the elements of the FIFO's result.
pub record Agrees (q : ByteQueue) (result : Option (ErrorCode × Option ByteQueue))
    (status : ErrorCode) (elements : List (List ℕ)) : Type 0 where
  pub next : ByteQueue
  pub returns : result ≡ some (status, some next)
  pub holds : contents next ≡ elements
  pub valid : IsValid next
  pub same_capacity : next.capacity ≡ q.capacity
  pub same_element_size : next.element_size ≡ q.element_size

-- `glbqueue_push` of an element of `element_size` bytes on a valid queue never leaves the pool,
-- returns what the bounded FIFO's push returns, keeps the invariant, the capacity and the element
-- size, and the elements of the new queue are those of the FIFO's new state.
pub push_refines :
    (q : ByteQueue) (element : List ℕ)
    → IsValid q
    → length element ≡ q.element_size
    → let (s, elements) = Fifo.push q.capacity (contents q) element in
      Agrees q (push (some q) (some element)) s elements
unfolding Fifo.push
push_refines q element v fits = elim (dec_lt q.length q.capacity) [
  | yes room ↦
      let t : leb q.capacity (length (contents q)) ≡ false = ground (arith, contents-length v) in
      rw t (record {
        next = pushed q element;
        returns = push-room v room element fits;
        holds = contents-pushed v room element fits;
        valid = pushed-IsValid v room element fits;
        same_capacity = refl;
        same_element_size = refl;
      })
  | no full ↦
      let t : leb q.capacity (length (contents q)) ≡ true = ground (arith, contents-length v) in
      rw t (record {
        next = q;
        returns = push-full v (some element) full;
        holds = refl;
        valid = v;
        same_capacity = refl;
        same_element_size = refl;
      })
]

-- A NULL element is pushed as `element_size` zero bytes.
pub push-null :
    (q : ByteQueue) → push (some q) none ≡ push (some q) (some (replicate q.element_size 0))
unfolding push source load
push-null q =
    let whole : load {A = ℕ} (replicate q.element_size 0) 0 q.element_size
        ≡ some (replicate q.element_size 0) =
      ground (
        arith,
        length-replicate {A = ℕ} q.element_size 0,
        take-length {A = ℕ} (replicate q.element_size 0) q.element_size,
      ) in
    rw whole

-- The same for `glbqueue_pop` into a buffer.
pub record Yields (q : ByteQueue) (result : Option (ErrorCode × Option (List ℕ) × Option ByteQueue))
    (status : ErrorCode) (out : Option (List ℕ)) (elements : List (List ℕ)) : Type 0 where
  pub next : ByteQueue
  pub returns : result ≡ some (status, out, some next)
  pub holds : contents next ≡ elements
  pub valid : IsValid next
  pub same_capacity : next.capacity ≡ q.capacity
  pub same_element_size : next.element_size ≡ q.element_size

-- `glbqueue_pop` into a buffer, on a valid queue, never leaves the pool, returns the status and the
-- element that the bounded FIFO's pop returns, keeps the invariant, the capacity and the element
-- size, and the elements of the new queue are those of the FIFO's new state.
pub pop_refines :
    (q : ByteQueue)
    → IsValid q
    → let (s, out, elements) = Fifo.pop (contents q) in Yields q (pop (some q) true) s out elements
unfolding Fifo.pop
pop_refines q v = elim (dec_lt 0 q.length) [
  | yes live ↦ rw (contents-popped v live) (record {
    next = popped q;
    returns = pop-live v live true;
    holds = refl;
    valid = popped-IsValid v live;
    same_capacity = refl;
    same_element_size = refl;
  })
  | no empty ↦ rw (contents-empty v empty) (record {
    next = q;
    returns = pop-empty v true empty;
    holds = contents-empty v empty;
    valid = v;
    same_capacity = refl;
    same_element_size = refl;
  })
]

-- What `glbqueue_peek` points at, read out.
read_at : ByteQueue → ErrorCode → Option ℕ → Option (ErrorCode × Option (List ℕ))
read_at q s none = some (s, none)
read_at q s (some offset) = do bytes ← load q.pool offset q.element_size; some (s, some bytes)

pub look_at : ByteQueue → Option (ErrorCode × Option (List ℕ))
unfolding read_at
look_at q = let (s, offset) = peek (some q) true in read_at q s offset

-- `glbqueue_peek` on a valid queue points at the oldest element, which lies inside the pool, and
-- reports an empty queue as the bounded FIFO does.
pub peek_refines : (q : ByteQueue) → IsValid q → look_at q ≡ some (Fifo.peek (contents q))
unfolding look_at read_at Fifo.peek
peek_refines q v = elim (dec_lt 0 q.length) [
  | yes live ↦
      rw (contents-popped v live) (ground (arith, peek-live v live, load-slot v q.head v.head_in))
  | no empty ↦ rw (contents-empty v empty, peek-empty v empty)
]

-- A client's calls on a queue that is not NULL, with what it sees of each.
unfoldable pub run : ByteQueue → List (Op (List ℕ)) → Option (List (ErrorCode × Option (List ℕ)))
run q [] = some []
run q (put x ∷ ops) = elim (push (some q) (some x)) [
  | some (s, some q') ↦ (do rest ← run q' ops; some ((s, none) ∷ rest))
  | _ ↦ none
]
run q (get ∷ ops) = elim (pop (some q) true) [
  | some (s, out, some q') ↦ (do rest ← run q' ops; some ((s, out) ∷ rest))
  | _ ↦ none
]
run q (look ∷ ops) = do (s, out) ← look_at q; rest ← run q ops; some ((s, out) ∷ rest)

-- Every element that is put has the queue's element size.
abbrev pub Fits : ℕ → Op (List ℕ) → Type 0
Fits n (put x) = length x ≡ n
Fits n get = Unit {0}
Fits n look = Unit {0}

-- Any sequence of pushes, pops and peeks on a valid queue, each push of an element of the queue's
-- element size, never accesses memory outside the pool, and returns call by call what the bounded
-- FIFO of the queue's elements returns.
pub run_refines :
    (q : ByteQueue) (ops : List (Op (List ℕ)))
    → IsValid q
    → All (Fits q.element_size) ops
    → run q ops ≡ some (Fifo.run q.capacity (contents q) ops)
unfolding run Fifo.run
run_refines q [] v h = refl
run_refines q (put x ∷ ops) v h =
    let r = push_refines q x v h.0 in
    rw (
      r.returns,
      run,
      run_refines r.next ops r.valid (rw r.same_element_size h.1),
      r.holds,
      r.same_capacity,
    )
run_refines q (get ∷ ops) v h =
    let r = pop_refines q v in
    rw (
      r.returns,
      run,
      run_refines r.next ops r.valid (rw r.same_element_size h.1),
      r.holds,
      r.same_capacity,
    )
run_refines q (look ∷ ops) v h = rw (peek_refines q v, run_refines q ops v h.1)
