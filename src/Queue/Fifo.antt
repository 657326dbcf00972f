-- ===== src/Queue/Fifo.antt =====
-- What src/libgilberta/queue.h promises: a bounded FIFO, oldest element first.
use libgilberta.Base.{ℕ, List, [], ◌∷◌, ◌++◌, Option, none, some, length, leb, if◌then◌else◌}
use libgilberta.Status.{ErrorCode, success, queue_full, queue_empty}

module _ {ℓ} {A : Type ℓ} where
  unfoldable pub push : ℕ → List A → A → ErrorCode × List A
  push cap q x = if leb cap (length q) then (queue_full, q) else (success, q ++ x ∷ [])

  unfoldable pub pop : List A → ErrorCode × Option A × List A
  pop [] = (queue_empty, none, [])
  pop (x ∷ q) = (success, some x, q)

  unfoldable pub peek : List A → ErrorCode × Option A
  peek [] = (queue_empty, none)
  peek (x ∷ q) = (success, some x)

-- A client's calls, and what it sees of each.
pub data Op {ℓ} (A : Type ℓ) : Type ℓ where
  put : A → Op A
  get look : Op A

module _ {ℓ} {A : Type ℓ} (cap : ℕ) where
  unfoldable pub run : List A → List (Op A) → List (ErrorCode × Option A)
  run q [] = []
  run q (put x ∷ ops) = let (s, q') = push cap q x in (s, none) ∷ run q' ops
  run q (get ∷ ops) = let (s, out, q') = pop q in (s, out) ∷ run q' ops
  run q (look ∷ ops) = let (s, out) = peek q in (s, out) ∷ run q ops
