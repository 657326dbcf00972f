-- ===== src/Invariant/Send.antt =====
-- glb_send of src/libgilberta/gilberta.c keeps the invariant and stays inside its arrays.
use libgilberta.Base.{
  ℕ, ◌+◌, ◌≤◌, ◌<◌, ◌≡◌, refl, List, Option, none, some, true, false, length, get_elem?, set, arith,
  get_elem?_of_lt, All-get_elem?, Bool-cases, inl, inr, leb, ltb,
}
use libgilberta.Base.Memory.{load, slice}
use libgilberta.Status.{ErrorCode, message_too_long, connection_closed}
use libgilberta.Queue.Slots
use libgilberta.Queue.Slots.Laws.{push-IsValid}
use libgilberta.Packet.{Pkg, mtu}
use libgilberta.State.{Ctx, Conn, Channel}
use libgilberta.Os.{Os}
use libgilberta.Effect.{St, ◌>>=◌, ◌>>◌, get_ctx, put_ctx, pure, get_conn, put_conn, deref, ask}
use libgilberta.Base.Words.{u64}
use libgilberta.Timer.{timer_get_current_ms, glbtime_start, current_ms}
use libgilberta.Context.{is_established}
use libgilberta.Tick.Data.{with_channel}
use libgilberta.Api.{
  SendInfo, send_args, data_packet, enqueue, is_queue_full, send_checked, glb_send,
}
use libgilberta.Invariant.{ChannelOk, ConnOk, Inv, Ensures}
use libgilberta.Invariant.Rules.{Inv-set, Ensures_of_ok}
use libgilberta.Invariant.Access.{is_live_of_established, get_channel-Found, ConnOk-with_channel}

-- What the caller of glb_send owes: a connection of the context, and as many bytes as it says.
pub record IsSendable (k : ℕ) (info : SendInfo) : Type 0 where
  pub con_in : (i : ℕ) → info.con ≡ some i → i < k
  pub enough : (bytes : List ℕ) → info.bytes ≡ some bytes → info.len ≤ length bytes

-- What is known when the first check of glb_send has passed.
pub send_args_lem :
    (ctx : Ctx) (info : SendInfo) (i : ℕ) (source : List ℕ)
    → send_args ctx info ≡ some (i, source)
    → (info.con ≡ some i) × (info.bytes ≡ some source) × (info.channel_id < ctx.channel_count)
unfolding send_args
send_args_lem ctx info i source e = ground (arith, e)

pub enqueue-ChannelOk : (c : Channel) (p : Pkg) → ChannelOk c → ChannelOk (enqueue c p).1
unfolding enqueue
enqueue-ChannelOk c p h =
    let valid = push-IsValid c.s_queue h.s_valid p in
    elim (Bool-cases (is_queue_full (Slots.push c.s_queue p).0)) [
      | inl full ↦ rw full (record { s_valid = valid; r_valid = h.r_valid })
      | inr room ↦ rw room (record { s_valid = valid; r_valid = h.r_valid })
    ]

module _ (os : Os) {n k : ℕ} (local : Pkg) (info : SendInfo) (s : St (Os.World os)) where
  open os use {World}

  module _ (v : Inv n k s.ctx) (caller : IsSendable k info) where
    Inv-error : (e : ErrorCode) → Inv n k (record (s.ctx) { error = e })
    Inv-error e = record {
      channel_total = v.channel_total;
      connection_total = v.connection_total;
      connections_length = v.connections_length;
      configs = v.configs;
      events = v.events;
      connections_ok = v.connections_ok;
    }

    -- On an established connection.
    send-established :
        (i : ℕ) (source : List ℕ) (con : Conn)
        → send_args s.ctx info ≡ some (i, source)
        → ltb mtu info.len ≡ false
        → get_elem? s.ctx.connections i ≡ some con
        → is_established con.state ≡ true
        → Ensures (send_checked os local info (some (i, source)) s) (λ _ t. Inv n k t.ctx)
    unfolding send_checked glbtime_start load timer_get_current_ms ◌>>=◌ ◌>>◌ get_ctx put_ctx pure
        get_conn put_conn deref ask
    send-established i source con args short at open_ =
        let (_, data_is, ch_lt) = send_args_lem s.ctx info i source args in
        let conn_ok = All-get_elem? (ConnOk n) s.ctx.connections i v.connections_ok at in
        let has = conn_ok.live (is_live_of_established con open_) in
        let f =
          get_channel-Found s i info.channel_id con conn_ok.shape has at
            (omega (arith, ch_lt, v.channel_total)) in
        let whole : leb (0 + info.len) (length source) ≡ true =
          ground (arith, caller.enough source data_is) in
        let (stamp, w) = os.clock_gettime s.world in
        let pkg =
          record (data_packet local con f.channel info.channel_id (slice 0 info.len source)) {
            timestamp = u64 (current_ms stamp + 0);
          } in
        let c = (enqueue f.channel pkg).1 in
        let next = with_channel info.channel_id c con in
        let after = record (s.ctx) { connections = set s.ctx.connections i next } in
        Ensures_of_ok (λ _ t. Inv n k t.ctx) (send_checked os local info (some (i, source)) s)
          (enqueue f.channel pkg).0 (record { ctx = after; world = w })
          (rw (short, at, open_, f.found, whole) refl)
          (Inv-set s.ctx i next v (
            ConnOk-with_channel con info.channel_id c conn_ok
              (enqueue-ChannelOk f.channel pkg f.is_ok)))

    send_checked-Inv :
        (found : Option (ℕ × List ℕ))
        → send_args s.ctx info ≡ found
        → Ensures (send_checked os local info found s) (λ _ t. Inv n k t.ctx)
    unfolding send_checked ◌>>=◌ ◌>>◌ get_ctx put_ctx pure get_conn deref
    send_checked-Inv none args = v
    send_checked-Inv (some (i, source)) args = elim (Bool-cases (ltb mtu info.len)) [
      | inl long ↦
          Ensures_of_ok (λ _ t. Inv n k t.ctx) (send_checked os local info (some (i, source)) s)
            message_too_long (record s { ctx = record (s.ctx) { error = message_too_long } })
            (rw long refl) (Inv-error message_too_long)
      | inr short ↦
          let (con_is, data_is, ch_lt) = send_args_lem s.ctx info i source args in
          let inside = caller.con_in i con_is in
          let (con, at) =
            get_elem?_of_lt s.ctx.connections i (omega (arith, inside, v.connections_length)) in
          elim (Bool-cases (is_established con.state)) [
            | inl open_ ↦ send-established i source con args short at open_
            | inr shut ↦
                Ensures_of_ok (λ _ t. Inv n k t.ctx)
                  (send_checked os local info (some (i, source)) s) connection_closed s
                  (rw (short, at, shut) refl) v
          ]
    ]

-- On a context with the invariant, whatever the state of the connection, glb_send of at most as many
-- bytes as the caller's buffer holds, to a connection of the context, returns a status without any
-- access through NULL or outside an array, and keeps the invariant.
pub glb_send-Inv :
    (os : Os) (n k : ℕ) (local : Pkg) (info : SendInfo) (s : St (Os.World os))
    → Inv n k s.ctx
    → IsSendable k info
    → Ensures (glb_send os local (some info) s) (λ _ t. Inv n k t.ctx)
unfolding glb_send ◌>>=◌ get_ctx
glb_send-Inv os n k local info s v caller =
    send_checked-Inv os local info s v caller (send_args s.ctx info) refl
