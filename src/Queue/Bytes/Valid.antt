-- ===== src/Queue/Bytes/Valid.antt =====
-- The invariant of the byte queue of src/libgilberta/queue.c, and the bounds of its accesses.
use libgilberta.Base.{ℕ, ◌+◌, ◌*◌, ◌%◌, ◌^◌, ◌≤◌, ◌<◌, ◌≡◌, List, some, arith, length}
use libgilberta.Base.Memory.{load, store, slice, overwrite}
use libgilberta.Base.Words.{u32}
use libgilberta.Queue.Bytes.{ByteQueue}

-- The pool holds `capacity` elements, its offsets fit 32 bits, and the window is inside it.
pub record IsValid (q : ByteQueue) : Type 0 where
  pub storage : q.capacity * q.element_size ≤ length q.pool
  pub offsets : q.capacity * q.element_size < 2 ^ 32
  pub indices : q.capacity ≤ 2 ^ 31
  pub head_in : q.head < q.capacity
  pub length_in : q.length ≤ q.capacity

-- A slot of a pool starts and ends inside it.
pub slot_in : (i cap size : ℕ) → i < cap → i * size + size ≤ cap * size
slot_in i cap size h = grind arith

module _ {q : ByteQueue} (v : IsValid q) where
  -- `uint32_t` cuts nothing off the offset of a slot.
  pub offset-u32 : (i : ℕ) → i < q.capacity → u32 (i * q.element_size) ≡ i * q.element_size
  offset-u32 i h = omega (arith, slot_in i q.capacity q.element_size h, v.offsets)

  pub load-slot :
      (i : ℕ)
      → i < q.capacity
      → load q.pool (i * q.element_size) q.element_size
        ≡ some (slice (i * q.element_size) q.element_size q.pool)
  unfolding load
  load-slot i h = ground (arith, slot_in i q.capacity q.element_size h, v.storage)

  pub store-slot :
      (i : ℕ) (bytes : List ℕ)
      → i < q.capacity
      → length bytes ≡ q.element_size
      → store q.pool (i * q.element_size) bytes ≡ some (overwrite (i * q.element_size) bytes q.pool)
  unfolding store
  store-slot i bytes h e = ground (arith, slot_in i q.capacity q.element_size h, v.storage)

  pub tail_in : q.length < q.capacity → u32 (q.head + q.length) % q.capacity < q.capacity
  tail_in h = omega (arith, v.head_in)

  pub tail-u32 : q.length < q.capacity → u32 (q.head + q.length) ≡ q.head + q.length
  tail-u32 h = omega (arith, v.head_in, v.indices)
