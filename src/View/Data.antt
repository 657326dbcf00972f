-- ===== src/View/Data.antt =====
-- The DATA and DATA ACK branches of glb_tick (src/libgilberta/gilberta.c) as one channel of a connection
-- sees them.
use libgilberta.Base.{
  ℕ, ◌+◌, ◌≡◌, refl, sym, subst, some, true, ◌&&◌, ◌||◌, not, leb, ◌==◌, ◌⊎◌, inl, inr, get_elem?,
  if◌then◌else◌,
}
use libgilberta.Base.Words.{u32}
use libgilberta.Packet.{Pkg, glbpkg_init, flag_data_ack}
use libgilberta.State.{Addr, Conn, Channel, Event}
use libgilberta.Os.{Os, LogLevel, old_packet, desync}
use libgilberta.Context.{is_established, glbctx_addrequal, glbctx_findconn}
use libgilberta.Effect.{M, St, pure, put_conn, tell, ◌>>=◌, ◌>>◌}
use libgilberta.Io.{glbio_send, with_checksum}
use libgilberta.Tick.Common.{is_reliable, push_event, is_success}
use libgilberta.Tick.Data.{
  with_channel, Verdict, old, future, deliver, judge, take_in, data_ack_of, deliver_data,
  migrate_data, on_data, acknowledge, on_data_ack,
}
use libgilberta.View.{
  Ends, Ends-get_ctx, Ends-found, Seen, View-weaken, View, Brings, View-brings, View-untouched,
  View-get_conn, View-put_conn, View-modify_conn, View-if, View-pure,
}
use libgilberta.View.Calls.{
  Untouched-push_event, Untouched-tell, Brings-glbio_send, Brings->>=, Brings-pure,
}
use libgilberta.View.Slot.{HasChannel, HasChannel-same, HasChannel-with_channel, View-channel_is}

-- A packet that acknowledges the number `seq`.
pub record Acks (seq : ℕ) (pkg : Pkg) : Type 0 where
  pub flags_are : pkg.header.ctrl_flags ≡ flag_data_ack
  pub ack_is : pkg.header.ack ≡ seq

-- What the verdict makes of the channel and of the packet buffer.
abbrev pub Judged : Verdict → ℕ → Channel → Pkg → Pkg → Conn → Type 0
Judged old ch x pkg answer d = HasChannel d ch x × Acks pkg.header.seq answer
Judged future ch x pkg answer d = HasChannel d ch x × (answer ≡ pkg)
Judged deliver ch x pkg answer d = HasChannel d ch (take_in x pkg) × Acks pkg.header.seq answer

module _ (os : Os) where
  open os use {World}

  Acks-sealed :
      (con : Conn) (x : Channel) (pkg sent : Pkg)
      → sent ≡ with_checksum (data_ack_of con x pkg)
      → Acks pkg.header.seq sent
  unfolding data_ack_of glbpkg_init
  Acks-sealed con x pkg sent sealed =
      subst (Acks pkg.header.seq) (sym sealed) (record { flags_are = refl; ack_is = refl })

  Brings-data_ack :
      (con : Conn) (x : Channel) (pkg : Pkg)
      → Brings
          (do (status, sent) ← glbio_send os (data_ack_of con x pkg) con.peer_addr; pure sent)
          (Acks pkg.header.seq)
  Brings-data_ack con x pkg =
      Brings->>= _ _ (Brings-glbio_send os (data_ack_of con x pkg) con.peer_addr)
        (λ answer sealed. Brings-pure answer.1 (Acks-sealed con x pkg answer.1 sealed))

  pub View-deliver_data :
      (i : ℕ) (con : Conn) (x : Channel) (pkg : Pkg)
      → HasChannel con pkg.header.channel_id x
      → is_reliable x ≡ true
      → View i con
          (deliver_data os i pkg)
          (λ answer d. Judged (judge x pkg.header.seq) pkg.header.channel_id x pkg answer d)
  unfolding deliver_data
  View-deliver_data i con x pkg h reliable =
      View-get_conn _
        (View-channel_is pkg.header.channel_id x _ h (by_verdict (judge x pkg.header.seq)))
    where
      ch : ℕ
      ch = pkg.header.channel_id

      acked : M World Pkg
      acked = do (status, sent) ← glbio_send os (data_ack_of con x pkg) con.peer_addr; pure sent

      answer_of : M World Pkg
      answer_of = if is_reliable x then acked else pure pkg

      Brings-answer : Brings answer_of (Acks pkg.header.seq)
      Brings-answer = rw reliable (Brings-data_ack con x pkg)

      by_verdict :
          (v : Verdict)
          → View i con
              (elim v as (λ _. M World Pkg) [
                | old ↦ (do
                  tell (λ w. os.log w LogLevel.debug (old_packet pkg.header.seq x.ack ch))
                  acked)
                | future ↦ (do
                  put_conn i (record con { desync_count = u32 (con.desync_count + 1) })
                  tell (λ w. os.log w LogLevel.error (desync pkg.header.seq x.ack ch))
                  pure pkg)
                | deliver ↦ (do
                  put_conn i (with_channel ch (take_in x pkg) con)
                  answer ← answer_of
                  push_event (Event.receive i ch)
                  pure answer)
              ])
              (λ answer d. Judged v ch x pkg answer d)
      by_verdict old = View-untouched _ _ (Untouched-tell _) (
          View-brings _ _ (Brings-glbio_send os (data_ack_of con x pkg) con.peer_addr)
            (λ answer sealed. View-pure answer.1 (h, Acks-sealed con x pkg answer.1 sealed)))
      by_verdict future = View-put_conn _ _ (
          View-untouched _ _ (Untouched-tell _)
            (View-pure pkg (HasChannel-same con _ ch x refl h, refl)))
      by_verdict deliver = View-put_conn _ _ (
          View-brings _ _ Brings-answer (λ answer acks.
            View-untouched _ _ (Untouched-push_event (Event.receive i ch))
              (View-pure answer (HasChannel-with_channel con ch x (take_in x pkg) h, acks))))

-- A DATA packet for the channel is dropped, or the channel judges it.
abbrev pub Received : ℕ → Channel → Pkg → Pkg → Conn → Type 0
Received ch x pkg answer d =
    (HasChannel d ch x × (answer ≡ pkg)) ⊎ Judged (judge x pkg.header.seq) ch x pkg answer d

-- A DATA ACK for the channel is dropped, or the channel takes it.
abbrev pub Acknowledged : ℕ → Channel → Pkg → Conn → Type 0
Acknowledged ch x pkg d = HasChannel d ch x ⊎ HasChannel d ch (acknowledge x pkg.header.ack)

module _ (os : Os) where
  open os use {World}

  View-migrate_data :
      (i : ℕ) (con : Conn) (x : Channel) (pkg : Pkg) (from_addr : Addr)
      → HasChannel con pkg.header.channel_id x
      → is_reliable x ≡ true
      → View i con
          (migrate_data os i pkg from_addr)
          (λ answer d. Received pkg.header.channel_id x pkg answer d)
  unfolding migrate_data
  View-migrate_data i con x pkg from_addr h reliable = View-channel_is pkg.header.channel_id x _ h (
      View-if (is_reliable x && (pkg.header.seq == x.ack)) _ _
        (λ _. View-untouched _ _ (Untouched-tell _) (
          View-modify_conn _ _ (
            View-untouched _ _ (Untouched-push_event (Event.migration i)) (
              View-weaken _
                (View-deliver_data os i (record con { peer_addr = from_addr }) x pkg
                  (HasChannel-same con _ pkg.header.channel_id x refl h) reliable)
                (λ answer d judged. inr judged)))))
        (λ _. View-pure pkg (inl (h, refl))))

  -- The whole branch, for a packet of connection `i`.
  pub Ends-on_data :
      (s : St World) (i : ℕ) (con : Conn) (x : Channel) (pkg : Pkg) (from_addr : Addr)
      → get_elem? s.ctx.connections i ≡ some con
      → HasChannel con pkg.header.channel_id x
      → is_reliable x ≡ true
      → glbctx_findconn s.ctx.connections pkg.header.client_gen pkg.header.client_id ≡ some i
      → Ends
          (on_data os pkg from_addr s)
          (λ answer t. Seen i (Received pkg.header.channel_id x pkg answer) t)
  unfolding on_data
  Ends-on_data s i con x pkg from_addr at h reliable found =
      let Q =
        λ (answer : Pkg) (t : St World). Seen i (Received pkg.header.channel_id x pkg answer) t in
      Ends-get_ctx Q s _ (
        Ends-found Q s _ _ _ i found (
          (View-get_conn _ (
              View-if
                (not (is_established con.state) || leb s.ctx.channel_count pkg.header.channel_id) _
                _ (λ _. View-pure pkg (inl (h, refl)))
                (λ _.
                  View-if (is_success (glbctx_addrequal con.peer_addr from_addr)) _ _
                    (λ _.
                      View-weaken _ (View-deliver_data os i con x pkg h reliable)
                        (λ answer d judged. inr judged))
                    (λ _. View-migrate_data i con x pkg from_addr h reliable)))).ends
            s at))

pub Ends-on_data_ack :
    {W : Type 0} (s : St W) (i : ℕ) (con : Conn) (x : Channel) (pkg : Pkg)
    → get_elem? s.ctx.connections i ≡ some con
    → HasChannel con pkg.header.channel_id x
    → glbctx_findconn s.ctx.connections pkg.header.client_gen pkg.header.client_id ≡ some i
    → Ends (on_data_ack pkg s) (λ _ t. Seen i (Acknowledged pkg.header.channel_id x pkg) t)
unfolding on_data_ack
Ends-on_data_ack {W} s i con x pkg at h found =
    let Q = λ (answer : Pkg) (t : St W). Seen i (Acknowledged pkg.header.channel_id x pkg) t in
    Ends-get_ctx Q s _ (
      Ends-found Q s _ _ _ i found (
        (View-get_conn _ (
            View-if
              (not (is_established con.state) || leb s.ctx.channel_count pkg.header.channel_id) _ _
              (λ _. View-pure pkg (inl h))
              (λ _. View-channel_is pkg.header.channel_id x _ h (
                View-put_conn _ _ (
                  View-pure pkg (
                    inr (
                      HasChannel-with_channel con pkg.header.channel_id x
                        (acknowledge x pkg.header.ack) h))))))).ends
          s at))
