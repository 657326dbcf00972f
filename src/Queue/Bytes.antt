-- ===== src/Queue/Bytes.antt =====
-- src/libgilberta/queue.h and queue.c over raw bytes. The pool is the list of its bytes, a pointer
-- into it is an offset, and a function that changes `*queue` returns it beside its status. The
-- outer option is `none` where C leaves the behaviour undefined: an access outside the pool or
-- outside the caller's element, or a remainder by 0. Sums and products of `uint32_t` wrap.
pub mod Valid
pub mod Contents
pub mod Refine
use libgilberta.Base.{
  ℕ, ◌+◌, ◌-◌, ◌*◌, ◌%◌, List, [], ◌∷◌, Option, none, some, Bool, true, false, ◌||◌, ◌>>=◌, length,
  replicate, leb, ◌==◌, if◌then◌else◌,
}
use libgilberta.Base.Memory.{load, store}
use libgilberta.Base.Words.{u32}
use libgilberta.Status.{ErrorCode, success, invalid_argument, queue_full, queue_empty}

-- `struct glbqueue`, without the context that only `glbqueue_free` reads.
pub record ByteQueue : Type 0 where
  pub pool : List ℕ
  pub head : ℕ
  pub length : ℕ
  pub capacity : ℕ
  pub element_size : ℕ

-- `glbqueue_init`. The option is what the allocator returned for the pool, `none` for NULL.
unfoldable pub init : Option (List ℕ) → ℕ → ℕ → Option ByteQueue
init memory element_size capacity = if element_size == 0 || capacity == 0 then none else (do
  pool ← memory
  some (record {
    pool = pool;
    head = 0;
    length = 0;
    capacity = capacity;
    element_size = element_size;
  }))

-- What is copied in: `element_size` bytes of the element, or zeros where it is NULL.
source : ℕ → Option (List ℕ) → Option (List ℕ)
source size none = some (replicate size 0)
source size (some element) = load element 0 size

-- `glbqueue_push`.
unfoldable pub push : Option ByteQueue → Option (List ℕ) → Option (ErrorCode × Option ByteQueue)
unfolding source
push none element = some (invalid_argument, none)
push (some q) element = if leb q.capacity q.length then some (queue_full, some q) else (do
  let tail_index = u32 (u32 (q.head + q.length) % q.capacity * q.element_size)
  bytes ← source q.element_size element
  pool ← store q.pool tail_index bytes
  some (success, some (record q { pool = pool; length = u32 (q.length + 1) })))

-- `out_element` is a buffer (`true`) or NULL; the second part is what is copied into it.
copy_out : ByteQueue → Bool → Option (Option (List ℕ))
copy_out q false = some none
copy_out q true = do
  bytes ← load q.pool (u32 (q.head * q.element_size)) q.element_size
  some (some bytes)

-- `glbqueue_pop`.
unfoldable pub pop :
    Option ByteQueue → Bool → Option (ErrorCode × Option (List ℕ) × Option ByteQueue)
unfolding copy_out
pop none wanted = some (invalid_argument, none, none)
pop (some q) wanted =
    if q.length == 0
    then some (queue_empty, none, some q)
    else if q.capacity == 0
    then none
    else (do
      out ← copy_out q wanted
      some (
        success,
        out,
        some (record q { head = u32 (q.head + 1) % q.capacity; length = q.length - 1 }),
      ))

-- `glbqueue_peek`: the second part is what `*out_element` is set to, as an offset into the pool.
unfoldable pub peek : Option ByteQueue → Bool → ErrorCode × Option ℕ
peek none wanted = (invalid_argument, none)
peek (some q) false = (invalid_argument, none)
peek (some q) true =
    if q.length == 0 then (queue_empty, none) else (success, some (u32 (q.head * q.element_size)))

-- `glbqueue_is_empty`, `glbqueue_is_full`, `glbqueue_size`.
unfoldable pub is_empty : ByteQueue → Bool
is_empty q = q.length == 0

unfoldable pub is_full : ByteQueue → Bool
is_full q = q.length == q.capacity

unfoldable pub size : ByteQueue → ℕ
size q = q.length
