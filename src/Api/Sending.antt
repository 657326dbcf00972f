-- ===== src/Api/Sending.antt =====
-- glb_send of src/libgilberta/gilberta.c as the push of a message to a channel's send queue.
use libgilberta.Base.{
  ℕ, ◌+◌, length-take, ◌≤◌, ◌<◌, ◌≡◌, refl, ap, subst, List, some, true, false, ◌||◌, ◌∙◌, arith,
  length, take, ltb, leb, ◌==◌, if◌then◌else◌, Bool-cases, inl, inr,
}
use libgilberta.Base.Memory.{load, take-patch}
use libgilberta.Base.Words.{u16, u32, u64}
use libgilberta.Status.{ErrorCode, success, queue_full}
use libgilberta.Queue.Fifo
use libgilberta.Queue.Slots
use libgilberta.Queue.Slots.{Queue}
use libgilberta.Queue.Slots.Laws.{contents, IsValid, push_refines, push-IsValid}
use libgilberta.Packet.{Pkg, mtu}
use libgilberta.State.{Conn, Channel}
use libgilberta.Os.{Os}
use libgilberta.Effect.{
  St, ◌>>=◌, ◌>>◌, get_ctx, put_ctx, pure, get_conn, put_conn, deref, ask, and_then,
}
use libgilberta.Timer.{current_ms, glbtime_start, timer_get_current_ms}
use libgilberta.Context.{is_established}
use libgilberta.Invariant.{Ensures}
use libgilberta.Invariant.Rules.{Ensures_of_ok}
use libgilberta.Api.{
  SendInfo, send_args, data_packet, enqueue, is_queue_full, send_checked, glb_send,
}
use libgilberta.Api.Messages.{Reaches, carried, with_conn_channel, found-channel}

-- A call of glb_send with its status: of the context only the send queue and the next number of the
-- channel may change. The queue is pushed a packet with the next number that carries the bytes, and the
-- number advances unless the queue was full.
pub record Sends {W : Type 0} (s t : St W) (i ch : ℕ) (bytes : List ℕ) (con : Conn) (c : Channel)
    (status : ErrorCode) : Type 0 where
  pub queue : Queue Pkg
  pub number : ℕ
  pub pkg : Pkg
  pub ctx_is : t.ctx ≡ with_conn_channel s.ctx i ch con (record c { s_queue = queue; seq = number })
  pub valid : IsValid queue
  pub carries : carried pkg ≡ bytes
  pub seq_is : pkg.header.seq ≡ c.seq
  pub pushes : (status, contents queue) ≡ Fifo.push c.s_queue.capacity (contents c.s_queue) pkg
  pub number_is : number ≡ (if is_queue_full status then c.seq else u32 (c.seq + 1))

-- Both answers of `enqueue`, from the queue's push.
record Enqueues (c : Channel) (pkg : Pkg) : Type 0 where
  queue : Queue Pkg
  number : ℕ
  valid : IsValid queue
  channel_is : (enqueue c pkg).1 ≡ record c { s_queue = queue; seq = number }
  pushes :
      ((enqueue c pkg).0, contents queue) ≡ Fifo.push c.s_queue.capacity (contents c.s_queue) pkg
  number_is : number ≡ (if is_queue_full (enqueue c pkg).0 then c.seq else u32 (c.seq + 1))

-- The statuses of the FIFO.
full_is_queue_full :
    (cap : ℕ) (xs : List Pkg) (x : Pkg)
    → is_queue_full (Fifo.push cap xs x).0 ≡ true
    → (Fifo.push cap xs x).0 ≡ queue_full
unfolding Fifo.push
full_is_queue_full cap xs x e = ground (arith, e)

room_is_success :
    (cap : ℕ) (xs : List Pkg) (x : Pkg)
    → is_queue_full (Fifo.push cap xs x).0 ≡ false
    → (Fifo.push cap xs x).0 ≡ success
unfolding Fifo.push
room_is_success cap xs x e = ground (arith, e)

enqueue-Enqueues : (c : Channel) (pkg : Pkg) → IsValid c.s_queue → Enqueues c pkg
unfolding enqueue
enqueue-Enqueues c pkg v =
    let refines = push_refines c.s_queue v pkg in
    let status_is = ap (λ (r : ErrorCode × List Pkg). r.0) refines in
    elim (Bool-cases (is_queue_full (Slots.push c.s_queue pkg).0)) [
      | inl full ↦
          let status =
            full_is_queue_full c.s_queue.capacity (contents c.s_queue) pkg
              (subst (λ x. is_queue_full x ≡ true) status_is full) in
          record {
            queue = (Slots.push c.s_queue pkg).1;
            number = c.seq;
            valid = push-IsValid c.s_queue v pkg;
            channel_is = rw full refl;
            pushes = rw full (rw (← (status_is ∙ status)) refines);
            number_is = rw full refl;
          }
      | inr room ↦
          let status =
            room_is_success c.s_queue.capacity (contents c.s_queue) pkg
              (subst (λ x. is_queue_full x ≡ false) status_is room) in
          record {
            queue = (Slots.push c.s_queue pkg).1;
            number = u32 (c.seq + 1);
            valid = push-IsValid c.s_queue v pkg;
            channel_is = rw room refl;
            pushes = rw room (rw (← (status_is ∙ status)) refines);
            number_is = rw room refl;
          }
    ]

-- The packet that glb_send builds carries the caller's bytes.
pub carries-data_packet :
    (local : Pkg) (con : Conn) (c : Channel) (ch stamp : ℕ) (bytes : List ℕ)
    → length local.payload ≡ mtu
    → length bytes ≤ mtu
    → carried (record (data_packet local con c ch bytes) { timestamp = stamp }) ≡ bytes
unfolding data_packet
carries-data_packet local con c ch stamp bytes whole short =
    let len : u16 (length bytes) ≡ length bytes = omega (arith, short) in
    rw len (take-patch bytes local.payload (omega (arith, short, whole)))

module _ (os : Os) (local : Pkg) (whole : length local.payload ≡ mtu) where
  open os use {World}

  -- glb_send of 1 to 1024 bytes of the caller's buffer to a channel of an established connection
  -- returns without a fault and changes at most the channel's send queue and next number: a packet
  -- with that number which carries the bytes is pushed to the queue as to a bounded FIFO, whose status
  -- is returned, and the number advances by one modulo 2 ^ 32 unless the queue was full.
  pub glb_send-Sends :
      (s : St World) (i ch : ℕ) (con : Conn) (c : Channel) (info : SendInfo) (source : List ℕ)
      → Reaches s i ch con c
      → IsValid c.s_queue
      → is_established con.state ≡ true
      → ch < s.ctx.channel_count
      → 0 < info.len
      → info.len ≤ mtu
      → info.len ≤ length source
      → let info' = record info { con = some i; bytes = some source; channel_id = ch } in
        Ensures
          (glb_send os local (some info') s)
          (λ status t. Sends s t i ch (take info.len source) con c status)
  unfolding glb_send send_checked send_args glbtime_start timer_get_current_ms load ◌>>=◌ ◌>>◌
      get_ctx put_ctx pure get_conn put_conn deref ask data_packet
  glb_send-Sends s i ch con c info source r v open_ inside pos short enough =
      let info' = record info { con = some i; bytes = some source; channel_id = ch } in
      let past : ((info.len == 0) || leb s.ctx.channel_count ch) ≡ false =
        ground (arith, pos, inside) in
      let fits : ltb mtu info.len ≡ false = ground (arith, short) in
      let readable : leb (0 + info.len) (length source) ≡ true = ground (arith, enough) in
      let (stamp, w) = os.clock_gettime s.world in
      let bytes = take info.len source in
      let pkg = record (data_packet local con c ch bytes) {
        timestamp = u64 (current_ms stamp + 0);
      } in
      let q = enqueue-Enqueues c pkg v in
      let some_bytes : length bytes ≤ mtu = omega (arith, length-take info.len source, short) in
      Ensures_of_ok (λ status t. Sends s t i ch bytes con c status)
        (glb_send os local (some info') s) (enqueue c pkg).0
        (record { ctx = with_conn_channel s.ctx i ch con (enqueue c pkg).1; world = w })
        (rw (past, fits, r.at, open_, found-channel r) (rw (and_then, readable) refl))
        (record {
          queue = q.queue;
          number = q.number;
          pkg = pkg;
          ctx_is = ap (with_conn_channel s.ctx i ch con) q.channel_is;
          valid = q.valid;
          carries =
              carries-data_packet local con c ch (u64 (current_ms stamp + 0)) bytes whole
                some_bytes;
          seq_is = refl;
          pushes = q.pushes;
          number_is = q.number_is;
        })
