-- ===== src/Tests/QueueRuns.antt =====
-- The byte queue of two elements of two bytes, whose window wraps around.
use libgilberta.Base.{ℕ, ◌≡◌, refl, List, [], ◌∷◌, some, true, arith}
use libgilberta.Queue.Fifo
use libgilberta.Queue.Fifo.{Op, put, get, look}
use libgilberta.Queue.Bytes.{ByteQueue, push, pop}
use libgilberta.Queue.Bytes.Valid.{IsValid}
use libgilberta.Queue.Bytes.Contents.{contents}
use libgilberta.Queue.Bytes.Refine.{
  Agrees, Yields, push_refines, pop_refines, peek_refines, look_at, run, run_refines,
}

abbrev wrapped : ByteQueue
wrapped = record { pool = 1 ∷ 2 ∷ 3 ∷ 4 ∷ []; head = 1; length = 1; capacity = 2; element_size = 2 }

wrapped-IsValid : IsValid wrapped
wrapped-IsValid = record {
  storage = omega arith;
  offsets = omega arith;
  indices = omega arith;
  head_in = omega arith;
  length_in = omega arith;
}

push_refines_example :
    let (s, elements) = Fifo.push 2 (contents wrapped) (5 ∷ 6 ∷ []) in
    Agrees wrapped (push (some wrapped) (some (5 ∷ 6 ∷ []))) s elements
push_refines_example = push_refines wrapped (5 ∷ 6 ∷ []) wrapped-IsValid refl

pop_refines_example :
    let (s, out, elements) = Fifo.pop (contents wrapped) in
    Yields wrapped (pop (some wrapped) true) s out elements
pop_refines_example = pop_refines wrapped wrapped-IsValid

peek_refines_example : look_at wrapped ≡ some (Fifo.peek (contents wrapped))
peek_refines_example = peek_refines wrapped wrapped-IsValid

abbrev calls : List (Op (List ℕ))
calls = put (5 ∷ 6 ∷ []) ∷ put (7 ∷ 8 ∷ []) ∷ get ∷ look ∷ get ∷ get ∷ []

run_refines_example : run wrapped calls ≡ some (Fifo.run 2 (contents wrapped) calls)
run_refines_example = run_refines wrapped calls wrapped-IsValid (ground arith)
