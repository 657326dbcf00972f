-- ===== src/Queue/Bytes/Contents.antt =====
-- The elements of the byte queue of src/libgilberta/queue.c, and what each branch of its functions
-- does to them under the invariant.
use native.Mathlib.Nat.{mod-lt, mod-eq_of_lt, mod-mod}
use libgilberta.Base.{
  ℕ, suc, ◌+◌, ◌-◌, ◌*◌, ◌%◌, ◌≤◌, ◌<◌, ◌≡◌, ◌≢◌, refl, sym, ap, ap₂, ◌∙◌, List, [], ◌∷◌, ◌++◌,
  Option, none, some, Bool, true, false, arith, length, leb, ◌==◌, ◌⊎◌, inl, inr, dec_lt,
  take-length,
}
use libgilberta.Base.Memory.{
  load, slice, overwrite, length-overwrite, slice-overwrite, slice-overwrite_below,
  slice-overwrite_above,
}
use libgilberta.Base.Words.{u32}
use libgilberta.Status.{success, queue_full, queue_empty}
use libgilberta.Queue.Window.{
  cons?, window, window_ext, window-suc, window_cong, length-window, mod-distinct,
}
use libgilberta.Queue.Bytes.{ByteQueue, push, pop, peek, copy_out}
use libgilberta.Queue.Bytes.Valid.{IsValid, slot_in, offset-u32, load-slot, store-slot, tail-u32}

-- The bytes of slot `i`.
abbrev pub slot : ByteQueue → ℕ → Option (List ℕ)
slot q i = load q.pool (i * q.element_size) q.element_size

-- The elements, oldest first.
abbrev pub contents : ByteQueue → List (List ℕ)
contents q = window (slot q) q.capacity q.head q.length

abbrev pub tail_slot : ByteQueue → ℕ
tail_slot q = (q.head + q.length) % q.capacity

abbrev pub pushed : ByteQueue → List ℕ → ByteQueue
pushed q bytes = record q {
  pool = overwrite (tail_slot q * q.element_size) bytes q.pool;
  length = q.length + 1;
}

abbrev pub popped : ByteQueue → ByteQueue
popped q = record q { head = (q.head + 1) % q.capacity; length = q.length - 1 }

-- Two slots do not overlap.
apart : (i j size : ℕ) → i ≢ j → (i * size + size ≤ j * size) ⊎ (j * size + size ≤ i * size)
apart i j size ne = elim (dec_lt i j) [
  | yes p ↦ inl (grind arith)
  | no p ↦ inr (slot_in j i size (omega arith))
]

module _ {q : ByteQueue} (v : IsValid q) where
  pub contents-length : length (contents q) ≡ q.length
  contents-length =
      length-window (slot q) q.capacity q.head q.length (omega (arith, v.head_in))
        λ i h. (slice (i * q.element_size) q.element_size q.pool, load-slot v i h)

  module _ (room : q.length < q.capacity) (bytes : List ℕ)
      (fits : length bytes ≡ q.element_size) where
    tail_slot_in : tail_slot q < q.capacity
    tail_slot_in = omega (arith, v.head_in)

    tail_range : tail_slot q * q.element_size + length bytes ≤ length q.pool
    tail_range =
        omega (arith, slot_in (tail_slot q) q.capacity q.element_size tail_slot_in, v.storage)

    pub pushed-IsValid : IsValid (pushed q bytes)
    pushed-IsValid = record {
      storage = omega (
        arith,
        v.storage,
        length-overwrite (tail_slot q * q.element_size) bytes q.pool tail_range,
      );
      offsets = v.offsets;
      indices = v.indices;
      head_in = v.head_in;
      length_in = omega arith;
    }

    slot-pushed_self : slot (pushed q bytes) (tail_slot q) ≡ some bytes
    slot-pushed_self =
        load-slot pushed-IsValid (tail_slot q) tail_slot_in
        ∙ ap some (
            ap (λ n. slice (tail_slot q * q.element_size) n (pushed q bytes).pool) (sym fits)
            ∙ slice-overwrite (tail_slot q * q.element_size) bytes q.pool tail_range)

    slot-pushed_ne : (i : ℕ) → i < q.capacity → i ≢ tail_slot q → slot (pushed q bytes) i ≡ slot q i
    slot-pushed_ne i h ne =
        load-slot pushed-IsValid i h
        ∙ ap some (elim (apart i (tail_slot q) q.element_size ne) [
          | inl below ↦
              slice-overwrite_below (i * q.element_size) q.element_size
                (tail_slot q * q.element_size) bytes q.pool below
          | inr above ↦
              slice-overwrite_above (i * q.element_size) q.element_size
                (tail_slot q * q.element_size) bytes q.pool (omega (arith, above))
        ])
        ∙ sym (load-slot v i h)

    pub contents-pushed : contents (pushed q bytes) ≡ contents q ++ bytes ∷ []
    contents-pushed =
        ap (λ n. window (slot (pushed q bytes)) q.capacity q.head n) length_suc
        ∙ window-suc (slot (pushed q bytes)) q.capacity q.head q.length
        ∙ ap₂ ◌++◌
            (window_ext (slot (pushed q bytes)) (slot q) q.capacity q.head q.length λ i lt.
              slot-pushed_ne ((q.head + i) % q.capacity) (omega (arith, v.head_in))
                (mod-distinct q.head q.capacity i q.length v.head_in lt room))
            (ap (λ o. cons? o []) slot-pushed_self)
      where
        length_suc : q.length + 1 ≡ suc q.length
        length_suc = omega arith

    pub push-room : push (some q) (some bytes) ≡ some (success, some (pushed q bytes))
    unfolding push load
    push-room =
        let not_full : leb q.capacity q.length ≡ false = ground arith in
        let whole : take_all ≡ some bytes = ground (arith, take-length bytes q.element_size) in
        rw
          (
            not_full,
            whole,
            tail-u32 v room,
            offset-u32 v (tail_slot q) tail_slot_in,
            store-slot v (tail_slot q) bytes tail_slot_in fits,
          )
          (ground (arith, v.indices))
      where
        take_all : Option (List ℕ)
        take_all = load bytes 0 q.element_size

  pub push-full :
      (element : Option (List ℕ))
      → ¬ (q.length < q.capacity)
      → push (some q) element ≡ some (queue_full, some q)
  unfolding push
  push-full element full = let is_full : leb q.capacity q.length ≡ true = ground arith in rw is_full

  -- Popping.
  module _ (live : 0 < q.length) where
    pub popped-IsValid : IsValid (popped q)
    popped-IsValid = record {
      storage = v.storage;
      offsets = v.offsets;
      indices = v.indices;
      head_in = mod-lt (q.head + 1) (omega (arith, v.head_in));
      length_in = omega (arith, v.length_in);
    }

    abbrev pub head_bytes : List ℕ
    head_bytes = slice (q.head * q.element_size) q.element_size q.pool

    pub contents-popped :
        contents q ≡ slice (q.head * q.element_size) q.element_size q.pool ∷ contents (popped q)
    contents-popped =
        ap (λ n. window (slot q) q.capacity q.head n) length_suc
        ∙ ap₂ cons? (ap (slot q) (mod-eq_of_lt v.head_in) ∙ load-slot v q.head v.head_in) (
            window_cong (slot q) q.capacity (suc q.head) ((q.head + 1) % q.capacity) (q.length - 1)
              same_start)
      where
        length_suc : q.length ≡ suc (q.length - 1)
        length_suc = omega arith

        same_start : suc q.head % q.capacity ≡ (q.head + 1) % q.capacity % q.capacity
        same_start = ap (λ t. t % q.capacity) one ∙ sym (mod-mod (q.head + 1) q.capacity)
          where
            one : suc q.head ≡ q.head + 1
            one = omega arith

    abbrev pub out_bytes : Bool → Option (List ℕ)
    out_bytes false = none
    out_bytes true = some head_bytes

    copy_out-live : (wanted : Bool) → copy_out q wanted ≡ some (out_bytes wanted)
    unfolding copy_out
    copy_out-live false = refl
    copy_out-live true = rw (offset-u32 v q.head v.head_in, load-slot v q.head v.head_in)

    pub pop-live :
        (wanted : Bool) → pop (some q) wanted ≡ some (success, out_bytes wanted, some (popped q))
    unfolding pop
    pop-live wanted =
        let live_test : (q.length == 0) ≡ false = ground arith in
        let room_test : (q.capacity == 0) ≡ false = ground (arith, v.head_in) in
        let next : u32 (q.head + 1) ≡ q.head + 1 = omega (arith, v.head_in, v.indices) in
        rw (live_test, room_test, copy_out-live wanted, next)

    pub peek-live : peek (some q) true ≡ (success, some (q.head * q.element_size))
    unfolding peek
    peek-live =
        let live_test : (q.length == 0) ≡ false = ground arith in
        rw (live_test, offset-u32 v q.head v.head_in)

  pub pop-empty :
      (wanted : Bool) → ¬ (0 < q.length) → pop (some q) wanted ≡ some (queue_empty, none, some q)
  unfolding pop
  pop-empty wanted h = let e : (q.length == 0) ≡ true = ground arith in rw e

  pub peek-empty : ¬ (0 < q.length) → peek (some q) true ≡ (queue_empty, none)
  unfolding peek
  peek-empty h = let e : (q.length == 0) ≡ true = ground arith in rw e

  pub contents-empty : ¬ (0 < q.length) → contents q ≡ []
  contents-empty h = let e : q.length ≡ 0 = omega arith in ap (window (slot q) q.capacity q.head) e
