-- ===== src/Programs/Echo/Reply.antt =====
-- The RECEIVE case of the server of src/test/echo.c: the message goes back.
use libgilberta.Base.{
  ℕ, ◌≤◌, ◌<◌, ◌≡◌, refl, sym, ap, subst, ◌∙◌, List, ◌∷◌, Option, some, none, true, false, arith,
  length, take, length-take, get_elem?, ltb,
}
use libgilberta.Base.Memory.{patch, take-patch, length-patch}
use libgilberta.Status.{ErrorCode, success}
use libgilberta.Queue.Fifo
use libgilberta.Queue.Slots.{Queue}
use libgilberta.Queue.Slots.Laws.{contents, IsValid}
use libgilberta.Packet.{Pkg, mtu}
use libgilberta.State.{Ctx, Conn, Channel, Channels}
use libgilberta.Os.{Os}
use libgilberta.Effect.{St, Run, pure, ◌>>=◌}
use libgilberta.Context.{is_established}
use libgilberta.Tick.Data.{with_channel}
use libgilberta.Api.{glb_send}
use libgilberta.Api.Messages.{
  Reaches, Reaches-put, carried, receive, with_conn_channel, put_twice, Takes, glb_popdata-Takes,
}
use libgilberta.Api.Sending.{Sends, glb_send-Sends}
use libgilberta.Invariant.{Ensures}
use libgilberta.Invariant.Rules.{Ensures-and_then, Ensures-weaken}
use libgilberta.Programs.Echo.{buffer_size, reply, send_back}

-- Of the context only the channel changes: the packet `p` is gone from its receive queue, and a packet
-- with the same message was pushed to its send queue.
pub record Replied {W : Type 0} (s t : St W) (i ch : ℕ) (con : Conn) (c : Channel) (p : Pkg)
    (rest : List Pkg) : Type 0 where
  pub c' : Channel
  pub pkg : Pkg
  pub ctx_is : t.ctx ≡ with_conn_channel s.ctx i ch con c'
  pub kept : c' ≡ record c { r_queue = c'.r_queue; s_queue = c'.s_queue; seq = c'.seq }
  pub taken : contents c'.r_queue ≡ rest
  pub carries : carried pkg ≡ carried p
  pub seq_is : pkg.header.seq ≡ c.seq
  pub pushed : contents c'.s_queue ≡ (Fifo.push c.s_queue.capacity (contents c.s_queue) pkg).1

same_state : (con : Conn) (ch : ℕ) (c : Channel) → (with_channel ch c con).state ≡ con.state
same_state con ch c = go con.channels
  where
    go : (o : Option Channels) → (with_channel ch c (record con { channels = o })).state ≡ con.state
    go none = refl
    go (some chans) = refl

module _ (os : Os) (junk : List ℕ) (local : Pkg) (s : St (Os.World os)) (i ch : ℕ) (con : Conn)
    (c : Channel) (p : Pkg) (rest : List Pkg) (r : Reaches s i ch con c)
    (s_valid : IsValid c.s_queue) (open_ : is_established con.state ≡ true)
    (inside : ch < s.ctx.channel_count) (whole : length local.payload ≡ mtu)
    (buffer : length junk ≡ buffer_size) (first : contents c.r_queue ≡ p ∷ rest)
    (some_bytes : 0 < p.header.payload_len) (fits : p.header.payload_len ≤ buffer_size)
    (stored : p.header.payload_len ≤ length p.payload) where
  open os use {World}

  abbrev Outcome : Run World ErrorCode → Type 0
  Outcome x = Ensures x (λ status u. Replied s u i ch con c p rest)

  length-carried : length (carried p) ≡ p.header.payload_len
  length-carried = omega (arith, length-take p.header.payload_len p.payload, stored)

  -- The glb_send, after the message was taken.
  sent_back :
      (t : St World) (q : Queue Pkg)
      → t.ctx ≡ with_conn_channel s.ctx i ch con (record c { r_queue = q })
      → contents q ≡ rest
      → Outcome (
          glb_send os local
            (some (record {
              bytes = some (patch (carried p) junk);
              con = some i;
              len = length (carried p);
              channel_id = ch;
            }))
            t)
  sent_back t q e left =
      let taken : Channel = record c { r_queue = q } in
      let r₁ = Reaches-put taken t.world r in
      let r₂ : Reaches t i ch (with_channel ch taken con) taken = record {
        chans = r₁.chans;
        at = ap (λ (x : Ctx). get_elem? x.connections i) e ∙ r₁.at;
        has = r₁.has;
        here = r₁.here;
      } in
      let len = length-carried in
      let patched = take-patch (carried p) junk (omega (arith, len, fits, buffer)) in
      Ensures-weaken
        {P = λ status u.
          Sends t u i ch (take (length (carried p)) (patch (carried p) junk))
            (with_channel ch taken con) taken status}
        {Q = λ status u. Replied s u i ch con c p rest} _
        (glb_send-Sends os local whole t i ch (with_channel ch taken con) taken
          (record {
            bytes = some (patch (carried p) junk);
            con = some i;
            len = length (carried p);
            channel_id = ch;
          })
          (patch (carried p) junk) r₂ s_valid (ap is_established (same_state con ch taken) ∙ open_)
          (subst (λ x. ch < x) (sym (ap (λ (x : Ctx). x.channel_count) e)) inside)
          (omega (arith, len, some_bytes)) (omega (arith, len, fits))
          (omega (arith, len, length-patch (carried p) junk, buffer, fits)))
        (λ status u sends. record {
          c' = record taken { s_queue = sends.queue; seq = sends.number };
          pkg = sends.pkg;
          ctx_is =
              sends.ctx_is
              ∙ ap
                  (λ x.
                    with_conn_channel x i ch (with_channel ch taken con)
                      (record taken { s_queue = sends.queue; seq = sends.number }))
                  e
              ∙ put_twice taken (record taken { s_queue = sends.queue; seq = sends.number }) r;
          kept = refl;
          taken = left;
          carries = sends.carries ∙ patched;
          seq_is = sends.seq_is;
          pushed = ap (λ (x : ErrorCode × List Pkg). x.1) sends.pushes;
        })

  -- The answer of glb_popdata.
  answered :
      (t : St World) (status : ErrorCode) (bytes : Option (List ℕ))
      → Takes s t i ch buffer_size con c status bytes
      → Ensures (reply os junk local i ch status bytes t) (λ _ u. Replied s u i ch con c p rest)
  unfolding receive reply pure ◌>>=◌
  answered t status bytes takes =
      let room : ltb buffer_size p.header.payload_len ≡ false = ground (arith, fits) in
      let told : (status, bytes, contents takes.queue) ≡ (success, some (carried p), rest) =
        takes.answer_is ∙ rw (first, room) refl in
      subst
        (λ (x : ErrorCode × Option (List ℕ) × List Pkg).
          Ensures (reply os junk local i ch x.0 x.1 t) (λ _ u. Replied s u i ch con c p rest))
        (sym told)
        (Ensures-and_then (λ _ u. Replied s u i ch con c p rest) _ (λ _. pure tt)
          (sent_back t takes.queue takes.ctx_is
            (ap (λ (x : ErrorCode × Option (List ℕ) × List Pkg). x.2) told))
          (λ _ u h. h))

-- A RECEIVE event of the echo server, for channel `ch` of an established connection with valid queues
-- whose oldest received packet is well formed and not empty: its case returns without a fault, the
-- packet is taken from the receive queue, a packet with the same message and the channel's next number
-- is pushed to the send queue as to a bounded FIFO, and nothing else of the context changes but that
-- number. If the send queue is full the message is lost.
pub send_back-Replied :
    (os : Os) (junk : List ℕ) (local : Pkg) (s : St (Os.World os)) (i ch : ℕ) (con : Conn)
    (c : Channel) (p : Pkg) (rest : List Pkg)
    → Reaches s i ch con c
    → IsValid c.s_queue
    → IsValid c.r_queue
    → is_established con.state ≡ true
    → ch < s.ctx.channel_count
    → length local.payload ≡ mtu
    → length junk ≡ buffer_size
    → contents c.r_queue ≡ p ∷ rest
    → 0 < p.header.payload_len
    → p.header.payload_len ≤ buffer_size
    → p.header.payload_len ≤ length p.payload
    → Ensures (send_back os junk local i ch s) (λ _ t. Replied s t i ch con c p rest)
unfolding send_back ◌>>=◌
send_back-Replied os junk local s i ch con c p rest r s_valid r_valid open_ inside whole buffer
      first some_bytes fits stored =
    Ensures-and_then {P = λ answer t. Takes s t i ch buffer_size con c answer.0 answer.1}
      (λ _ t. Replied s t i ch con c p rest) _
      (λ answer. reply os junk local i ch answer.0 answer.1)
      (glb_popdata-Takes
        (record { has_buffer = true; con = some i; buflen = buffer_size; channel_id = ch }) r
        r_valid inside (omega arith))
      (λ answer t takes.
        answered os junk local s i ch con c p rest r s_valid open_ inside whole buffer first
          some_bytes fits stored t answer.0 answer.1 takes)
