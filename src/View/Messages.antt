-- ===== src/View/Messages.antt =====
-- glb_send and glb_popdata of src/libgilberta/gilberta.c as one channel of a connection sees them.
use libgilberta.Base.{
  ℕ, ◌+◌, ◌≤◌, ◌≡◌, refl, sym, ◌∙◌, subst, List, some, none, Option, false, not, ◌||◌, ◌==◌, ◌⊎◌,
  inl, inr, arith, Bool-cases, ltb, leb, length, length-take, take, if◌then◌else◌, get_elem?,
}
use libgilberta.Base.Memory.{load}
use libgilberta.Status.{
  ErrorCode, success, invalid_argument, queue_empty, message_too_long, connection_closed,
}
use libgilberta.Queue.Slots
use libgilberta.Packet.{Pkg, mtu}
use libgilberta.State.{Conn, Channel}
use libgilberta.Os.{Os}
use libgilberta.Effect.{M, St, pure, get_ctx, put_ctx, put_conn, deref, ◌>>=◌, ◌>>◌}
use libgilberta.Context.{is_established}
use libgilberta.Tick.Common.{is_success}
use libgilberta.Tick.Data.{with_channel}
use libgilberta.Api.{
  SendInfo, RecvInfo, send_args, data_packet, enqueue, send_checked, glb_send, glb_popdata,
}
use libgilberta.Api.Messages.{carried}
use libgilberta.Api.Sending.{carries-data_packet}
use libgilberta.Invariant.Send.{send_args_lem}
use libgilberta.View.{
  Ends, Ends-get_ctx, Ends-found, Seen, View, View-brings, View-get_conn, View-put_conn, View-if,
  View-pure,
}
use libgilberta.View.Calls.{Untouched-glbtime_start}
use libgilberta.View.Slot.{HasChannel, HasChannel-with_channel, View-channel_is}

some_injective : {A : Type 0} {a b : A} → some a ≡ some b → a ≡ b
some_injective e = ground arith

-- A packet with the next number and the bytes was put into the send queue, or refused by it.
pub record Enqueued (ch : ℕ) (x : Channel) (bytes : List ℕ) (status : ErrorCode) (d : Conn)
    : Type 0 where
  pub pkg : Pkg
  pub seq_is : pkg.header.seq ≡ x.seq
  pub carries : carried pkg ≡ bytes
  pub status_is : status ≡ (enqueue x pkg).0
  pub holds : HasChannel d ch (enqueue x pkg).1

-- Nothing happened to the channel, and the status says so; or the bytes came to its send queue.
abbrev pub Offered : ℕ → Channel → List ℕ → ErrorCode → Conn → Type 0
Offered ch x bytes status d =
    (HasChannel d ch x × (is_success status ≡ false)) ⊎ Enqueued ch x bytes status d

module _ (os : Os) (local : Pkg) (whole : length local.payload ≡ mtu) where
  open os use {World}

  too_long :
      (i : ℕ) (con : Conn) (Q : ErrorCode → Conn → Type 0)
      → Q message_too_long con
      → View i con
          (do
            ctx ← get_ctx {W = World}
            put_ctx (record ctx { error = message_too_long })
            pure message_too_long)
          Q
  unfolding get_ctx put_ctx pure ◌>>=◌ ◌>>◌
  too_long i con Q q = record { ends = λ s at. record { con = con; at = at; holds = q } }

  -- The copy of the caller's bytes, if they are inside the buffer.
  View-load :
      (i : ℕ) (con : Conn) (source : List ℕ) (len : ℕ) (f : List ℕ → M World ErrorCode)
      (Q : ErrorCode → Conn → Type 0)
      → View i con (f (take len source)) Q
      → View i con (deref (load source 0 len) >>= f) Q
  unfolding deref load ◌>>=◌
  View-load i con source len f Q q = record {
    ends = λ s at. elim (Bool-cases (leb (0 + len) (length source))) [
      | inl inside ↦ rw inside (q.ends s at)
      | inr outside ↦ rw outside tt
    ];
  }

  -- What glb_send was given, cut to the length that it was told.
  View-send_checked :
      (i : ℕ) (con : Conn) (x : Channel) (info : SendInfo) (source : List ℕ)
      → HasChannel con info.channel_id x
      → View i con
          (send_checked os local info (some (i, source)))
          (λ status d. Offered info.channel_id x (take info.len source) status d)
  unfolding send_checked data_packet
  View-send_checked i con x info source h =
      View-if (ltb mtu info.len) _ _ (λ _. too_long i con _ (inl (h, refl)))
        (λ fits. View-get_conn _ (
          View-if (is_established con.state) _ _
            (λ _. View-channel_is info.channel_id x _ h (
              View-load i con source info.len _ _ (
                View-brings _ _ (Untouched-glbtime_start os 0) (λ stamp _. View-put_conn _ _ (
                  View-pure _ (
                    inr (record {
                      pkg = pkg stamp;
                      seq_is = refl;
                      carries =
                          carries-data_packet local con x info.channel_id stamp
                            (take info.len source) whole (short fits);
                      status_is = refl;
                      holds =
                          HasChannel-with_channel con info.channel_id x (enqueue x (pkg stamp)).1 h;
                    })))))))
            (λ _. View-pure connection_closed (inl (h, refl)))))
    where
      pkg : ℕ → Pkg
      pkg stamp = record (data_packet local con x info.channel_id (take info.len source)) {
        timestamp = stamp;
      }

      short : ltb mtu info.len ≡ false → length (take info.len source) ≤ mtu
      short fits = ground (arith, length-take info.len source, fits)

  pub Ends-glb_send :
      (s : St World) (i : ℕ) (con : Conn) (x : Channel) (info : SendInfo) (source : List ℕ)
      → get_elem? s.ctx.connections i ≡ some con
      → HasChannel con info.channel_id x
      → info.con ≡ some i
      → info.bytes ≡ some source
      → Ends
          (glb_send os local (some info) s)
          (λ status t. Seen i (Offered info.channel_id x (take info.len source) status) t)
  unfolding glb_send send_checked pure
  Ends-glb_send s i con x info source at h con_is bytes_are =
      Ends-get_ctx Q s _ (checked (send_args s.ctx info) refl)
    where
      Q : ErrorCode → St World → Type 0
      Q status t = Seen i (Offered info.channel_id x (take info.len source) status) t

      checked :
          (o : Option (ℕ × List ℕ))
          → send_args s.ctx info ≡ o
          → Ends (send_checked os local info o s) Q
      checked none e = record { con = con; at = at; holds = inl (h, refl) }
      checked (some (j, given)) e =
          let (con_is', bytes_are', _) = send_args_lem s.ctx info j given e in
          let same_con : i ≡ j = some_injective (sym con_is ∙ con_is') in
          let same_bytes : source ≡ given = some_injective (sym bytes_are ∙ bytes_are') in
          subst (λ k. Ends (send_checked os local info (some (k, given)) s) Q) same_con
            (subst (λ b. Ends (send_checked os local info (some (i, b)) s) Q) same_bytes
              ((View-send_checked i con x info source h).ends s at))

-- The oldest message was taken.
pub record Popped (ch : ℕ) (x : Channel) (answer : ErrorCode × Option (List ℕ)) (d : Conn)
    : Type 0 where
  pub pkg : Pkg
  pub head : Slots.peek x.r_queue ≡ some pkg
  pub answer_is : answer ≡ (success, some (carried pkg))
  pub holds : HasChannel d ch (record x { r_queue = (Slots.pop x.r_queue).2 })

-- Nothing happened to the channel, and the answer says so; or its oldest message was taken.
abbrev pub Polled : ℕ → Channel → ErrorCode × Option (List ℕ) → Conn → Type 0
Polled ch x answer d = (HasChannel d ch x × (is_success answer.0 ≡ false)) ⊎ Popped ch x answer d

pub Ends-glb_popdata :
    {W : Type 0} (s : St W) (i : ℕ) (con : Conn) (x : Channel) (info : RecvInfo)
    → get_elem? s.ctx.connections i ≡ some con
    → HasChannel con info.channel_id x
    → info.con ≡ some i
    → Ends (glb_popdata (some info) s) (λ answer t. Seen i (Polled info.channel_id x answer) t)
unfolding glb_popdata
Ends-glb_popdata {W} s i con x info at h con_is = Ends-get_ctx Q s _ (
    Ends-found Q s _ _ _ i con_is (
      (View-if
          (not info.has_buffer || (info.buflen == 0) || leb s.ctx.channel_count info.channel_id) _ _
          (λ _. View-pure (invalid_argument, none) (inl (h, refl)))
          (λ _.
            View-get_conn _
              (View-channel_is info.channel_id x _ h (head (Slots.peek x.r_queue) refl)))).ends
        s at))
  where
    Q : ErrorCode × Option (List ℕ) → St W → Type 0
    Q answer t = Seen i (Polled info.channel_id x answer) t

    head :
        (o : Option Pkg)
        → Slots.peek x.r_queue ≡ o
        → View i con
            (elim o as (λ _. M W (ErrorCode × Option (List ℕ))) [
              | none ↦ pure (queue_empty, none)
              | some p ↦
                  if ltb info.buflen p.header.payload_len
                  then pure (invalid_argument, none)
                  else (do
                    put_conn i (
                        with_channel info.channel_id
                          (record x { r_queue = (Slots.pop x.r_queue).2 })
                          con)
                    pure (success, some (take p.header.payload_len p.payload)))
            ])
            (λ answer d. Polled info.channel_id x answer d)
    head none e = View-pure (queue_empty, none) (inl (h, refl))
    head (some p) e =
        View-if (ltb info.buflen p.header.payload_len) _ _
          (λ _. View-pure (invalid_argument, none) (inl (h, refl)))
          (λ _. View-put_conn _ _ (
            View-pure _ (
              inr (record {
                pkg = p;
                head = e;
                answer_is = refl;
                holds =
                    HasChannel-with_channel con info.channel_id x
                      (record x { r_queue = (Slots.pop x.r_queue).2 }) h;
              }))))
