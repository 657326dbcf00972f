-- ===== src/Queue/Slots.antt =====
-- The queue of src/libgilberta/queue.c as its callers use it: its elements are values of one type,
-- a slot of the pool holds one, and is `none` until it is first written. Queue/Bytes has the code
-- over raw memory; both implement the FIFO of Queue/Fifo.
pub mod Laws
pub mod Cases
use libgilberta.Base.{
  ℕ, ◌+◌, ◌-◌, ◌%◌, List, Option, none, some, Bool, ◌>>=◌, get_elem?, set, replicate, leb, ◌==◌,
  if◌then◌else◌,
}
use libgilberta.Base.Words.{u32}
use libgilberta.Status.{ErrorCode, success, queue_full, queue_empty}

-- `block` is the address of the queue, which `glbqueue_free` hands to the allocator.
pub record Queue {ℓ} (A : Type ℓ) : Type ℓ where
  pub block : ℕ
  pub pool : List (Option A)
  pub head : ℕ
  pub length : ℕ
  pub capacity : ℕ

module _ {ℓ} {A : Type ℓ} where
  unfoldable pub init : ℕ → ℕ → Queue A
  init block capacity = record {
    block = block;
    pool = replicate capacity none;
    head = 0;
    length = 0;
    capacity = capacity;
  }

  unfoldable pub slot : Queue A → ℕ → Option A
  slot q i = do s ← get_elem? q.pool i; s

  unfoldable pub push : Queue A → A → ErrorCode × Queue A
  push q x = if leb q.capacity q.length then (queue_full, q) else (
    success,
    record q {
      pool = set q.pool (u32 (q.head + q.length) % q.capacity) (some x);
      length = u32 (q.length + 1);
    },
  )

  unfoldable pub pop : Queue A → ErrorCode × Option A × Queue A
  unfolding slot
  pop q = if q.length == 0 then (queue_empty, none, q) else (
    success,
    slot q q.head,
    record q { head = u32 (q.head + 1) % q.capacity; length = q.length - 1 },
  )

  -- The element that `glbqueue_peek` points at, `none` if the queue is empty; and a write to it.
  unfoldable pub peek : Queue A → Option A
  unfolding slot
  peek q = if q.length == 0 then none else slot q q.head

  unfoldable pub poke : Queue A → A → Queue A
  poke q x = record q { pool = set q.pool q.head (some x) }

  unfoldable pub size : Queue A → ℕ
  size q = q.length
