-- ===== src/Tick/Data.antt =====
-- The branches of `glb_tick` (src/libgilberta/gilberta.c) for DATA and DATA ACK.
use libgilberta.Base.{ℕ, ◌+◌, none, some, not, ◌&&◌, ◌||◌, set, ltb, leb, ◌==◌, if◌then◌else◌}
use libgilberta.Base.Words.{u32}
use libgilberta.Queue.Slots
use libgilberta.Packet.{Pkg, glbpkg_init, flag_data_ack}
use libgilberta.State.{Addr, Conn, Channel, Event}
use libgilberta.Os.{Os, LogLevel, migrated, old_packet, desync}
use libgilberta.Effect.{M, pure, get_ctx, get_conn, put_conn, tell, ◌>>=◌, ◌>>◌}
use libgilberta.Io.{glbio_send}
use libgilberta.Context.{is_established, glbctx_addrequal, glbctx_findconn}
use libgilberta.Tick.Common.{modify_conn, push_event, get_channel, is_success, is_reliable}

-- `channel->field = …` through the pointer to channel `ch` of a connection.
abbrev pub with_channel : ℕ → Channel → Conn → Conn
with_channel ch c con = elim con.channels [
  | none ↦ con
  | some chans ↦ record con { channels = some (record chans { items = set chans.items ch c }) }
]

-- What a channel makes of a sequence number: a packet already delivered, one from the future, or
-- one to deliver. Without the reliable flag every packet is delivered.
pub data Verdict : Type 0 where
  old future deliver : Verdict

unfoldable pub judge : Channel → ℕ → Verdict
judge c seq =
    if ltb seq c.ack && is_reliable c
    then old
    else if ltb c.ack seq && is_reliable c
    then future
    else deliver

-- The packet put into the receive queue, whose status is ignored, and the next number expected.
unfoldable pub take_in : Channel → Pkg → Channel
take_in c pkg = record c { r_queue = (Slots.push c.r_queue pkg).1; ack = u32 (c.ack + 1) }

-- The acknowledgment of `pkg`, built over it.
unfoldable pub data_ack_of : Conn → Channel → Pkg → Pkg
data_ack_of con c pkg =
    let blank = glbpkg_init pkg con.conn_id flag_data_ack pkg.header.channel_id in
    record blank { header = record (blank.header) { ack = pkg.header.seq; seq = c.seq } }

module _ (os : Os) where
  open os use {World, log}

  -- After the checks of the address: the sequence number decides.
  unfoldable pub deliver_data : ℕ → Pkg → M World Pkg
  unfolding judge take_in data_ack_of get_channel push_event
  deliver_data i pkg = do
    let ch = pkg.header.channel_id
    con ← get_conn i
    c ← get_channel i ch
    elim (judge c pkg.header.seq) [
      | old ↦ (do
        tell (λ w. log w LogLevel.debug (old_packet pkg.header.seq c.ack ch))
        (status, sent) ← glbio_send os (data_ack_of con c pkg) con.peer_addr
        pure sent)
      | future ↦ (do
        put_conn i (record con { desync_count = u32 (con.desync_count + 1) })
        tell (λ w. log w LogLevel.error (desync pkg.header.seq c.ack ch))
        pure pkg)
      | deliver ↦ (do
        put_conn i (with_channel ch (take_in c pkg) con)
        answer ←
            (if is_reliable c
              then (do
                (status, sent) ← glbio_send os (data_ack_of con c pkg) con.peer_addr
                pure sent)
              else pure pkg)
        push_event (Event.receive i ch)
        pure answer)
    ]

  -- Data from an address that is not the peer's: the next packet of a reliable channel moves the
  -- connection there, any other is dropped.
  unfoldable pub migrate_data : ℕ → Pkg → Addr → M World Pkg
  unfolding deliver_data
  migrate_data i pkg from_addr = do
    c ← get_channel i pkg.header.channel_id
    if is_reliable c && (pkg.header.seq == c.ack)
        then (do
          tell (λ w. log w LogLevel.warn migrated)
          modify_conn i (λ con. record con { peer_addr = from_addr })
          push_event (Event.migration i)
          deliver_data i pkg)
        else pure pkg

  unfoldable pub on_data : Pkg → Addr → M World Pkg
  unfolding migrate_data
  on_data pkg from_addr = do
    ctx ← get_ctx
    elim (glbctx_findconn ctx.connections pkg.header.client_gen pkg.header.client_id) [
      | none ↦ pure pkg
      | some i ↦ (do
        con ← get_conn i
        if not (is_established con.state) || leb ctx.channel_count pkg.header.channel_id
            then pure pkg
            else if is_success (glbctx_addrequal con.peer_addr from_addr)
            then deliver_data i pkg
            else migrate_data i pkg from_addr)
    ]

-- The channel after a DATA ACK: the oldest packet leaves the send queue if it is the one named.
unfoldable pub acknowledge : Channel → ℕ → Channel
acknowledge c ack = elim (Slots.peek c.s_queue) [
  | none ↦ c
  | some p ↦ if p.header.seq == ack then record c { s_queue = (Slots.pop c.s_queue).2 } else c
]

module _ {W : Type 0} where
  unfoldable pub on_data_ack : Pkg → M W Pkg
  unfolding acknowledge get_channel
  on_data_ack pkg = do
    ctx ← get_ctx
    elim (glbctx_findconn ctx.connections pkg.header.client_gen pkg.header.client_id) [
      | none ↦ pure pkg
      | some i ↦ (do
        con ← get_conn i
        if not (is_established con.state) || leb ctx.channel_count pkg.header.channel_id
            then pure pkg
            else (do
              c ← get_channel i pkg.header.channel_id
              put_conn i (with_channel pkg.header.channel_id (acknowledge c pkg.header.ack) con)
              pure pkg))
    ]
