-- ===== src/View/Closing.antt =====
-- What an RST of src/libgilberta/gilberta.c does to its connection, and glb_popdata afterwards.
use libgilberta.Base.{
  ℕ, ◌<◌, ◌≡◌, ◌-◌, refl, sym, ap, Option, some, none, true, false, not, ◌||◌, leb, ◌==◌, arith,
  get_elem?, set, set-set, set-get_elem?, get_elem?-set_self, lt_of_get_elem?, Bool-cases, inl, inr,
  List, if◌then◌else◌,
}
use libgilberta.Status.{ErrorCode, reset}
use libgilberta.Queue.Fifo
use libgilberta.Queue.Slots
use libgilberta.Queue.Slots.Laws.{contents, IsValid, push_refines, push-IsValid}
use libgilberta.Packet.{Pkg}
use libgilberta.State.{Conn, closed, Channels, Event}
use libgilberta.Os.{Os}
use libgilberta.Os.Books.{Books}
use libgilberta.Effect.{
  St, ok, fault, and_then, pure, get_ctx, put_ctx, get_conn, put_conn, deref, ◌>>=◌, ◌>>◌,
}
use libgilberta.Context.{is_established, glbctx_findconn}
use libgilberta.Context.Freed.{with_conn, freed, glbctx_freeconchannels_lem}
use libgilberta.Context.Owned.{owned, held-freed}
use libgilberta.Tick.Common.{get_channel, modify_conn, push_event}
use libgilberta.Tick.Teardown.{free_if_established, on_rst}
use libgilberta.Api.{RecvInfo, glb_popdata}
use libgilberta.Invariant.{Ensures}
use libgilberta.Invariant.Rules.{Ensures_of_ok}

-- The channels that a connection loses, and those that it still has: all or none.
abbrev pub lost_channels : Conn → Option Channels
lost_channels c = if is_established c.state then c.channels else none

abbrev pub kept_channels : Conn → Option Channels
kept_channels c = if is_established c.state then none else c.channels

-- Connection `i`, which was `c`, after an RST: it is closed, and a disconnection by reset is offered to
-- the event queue. If it was established, it has no channels any more and every block that they own is
-- given back; if not, it still has its channels and no block is given back.
pub record Reset {os : Os} (books : Books os) (i : ℕ) (c : Conn) (before after : St (Os.World os))
    : Type 0 where
  pub connections_are :
      after.ctx.connections
      ≡ set before.ctx.connections i (record c { state = closed; channels = kept_channels c })
  pub valid : IsValid after.ctx.eventqueue
  pub events_are :
      contents after.ctx.eventqueue
      ≡ (Fifo.push before.ctx.eventqueue.capacity
          (contents before.ctx.eventqueue)
          (Event.disconnect i reset)).1
  pub blocks :
      (a : ℕ) → books.held after.world a ≡ books.held before.world a - owned (lost_channels c) a

module _ (os : Os) (s : St (Os.World os)) (i : ℕ) (c : Conn)
    (at : get_elem? s.ctx.connections i ≡ some c) where
  open os use {World}

  abbrev without : St World
  without = record {
    ctx = with_conn s.ctx i (record c { channels = kept_channels c });
    world = freed os (lost_channels c) s.world;
  }

  free_if_established_lem : free_if_established os i s ≡ ok tt without
  unfolding free_if_established ◌>>=◌ get_conn deref pure
  free_if_established_lem = rw at (elim (Bool-cases (is_established c.state)) [
    | inl open_ ↦ rw open_ (rw (glbctx_freeconchannels_lem os s i c at) refl)
    | inr shut ↦ rw shut (
        ap (λ cs. ok tt (record s { ctx = record (s.ctx) { connections = cs } }))
          (sym (set-get_elem? s.ctx.connections i at)))
  ])

  abbrev after_rst : St World
  after_rst = record without {
    ctx = record (s.ctx) {
      connections =
          set s.ctx.connections i (record c { state = closed; channels = kept_channels c });
      eventqueue = (Slots.push s.ctx.eventqueue (Event.disconnect i reset)).1;
    };
  }

  on_rst_lem :
      (pkg : Pkg)
      → glbctx_findconn s.ctx.connections pkg.header.client_gen pkg.header.client_id ≡ some i
      → on_rst os pkg s ≡ ok pkg after_rst
  unfolding on_rst modify_conn push_event ◌>>=◌ ◌>>◌ get_conn put_conn get_ctx put_ctx deref pure
  on_rst_lem pkg found =
      let bare : Conn = record c { channels = kept_channels c } in
      let here =
        get_elem?-set_self s.ctx.connections i bare (lt_of_get_elem? s.ctx.connections i at) in
      let twice =
        set-set s.ctx.connections i bare
          (record c { state = closed; channels = kept_channels c }) in
      rw (found, and_then) (rw free_if_established_lem (rw here (rw twice refl)))

-- An RST that finds its connection `i`, on a context with a valid event queue, is handled without a fault
-- and closes the connection, whatever its state; a disconnection by reset is offered to the event queue.
-- The blocks of its channels are given back and the channels are gone if it was established; otherwise
-- they are still there and no block is given back, as for a connection in FIN_SENT. No other connection
-- changes.
pub on_rst-Reset :
    (os : Os) (books : Books os) (i : ℕ) (c : Conn) (pkg : Pkg) (s : St (Os.World os))
    → get_elem? s.ctx.connections i ≡ some c
    → glbctx_findconn s.ctx.connections pkg.header.client_gen pkg.header.client_id ≡ some i
    → IsValid s.ctx.eventqueue
    → Ensures (on_rst os pkg s) (λ _ t. Reset books i c s t)
on_rst-Reset os books i c pkg s at found v =
    let e : Event = Event.disconnect i reset in
    Ensures_of_ok (λ _ t. Reset books i c s t) (on_rst os pkg s) pkg (after_rst os s i c at)
      (on_rst_lem os s i c at pkg found)
      (record {
        connections_are = refl;
        valid = push-IsValid s.ctx.eventqueue v e;
        events_are = ap (λ (r : ErrorCode × List Event). r.1) (push_refines s.ctx.eventqueue v e);
        blocks = held-freed books (lost_channels c) s.world;
      })

get_channel-gone :
    {W : Type 0} (i ch : ℕ) (c : Conn) (s : St W)
    → get_elem? s.ctx.connections i ≡ some c
    → c.channels ≡ none
    → get_channel i ch s ≡ fault
unfolding get_channel ◌>>=◌ get_conn deref
get_channel-gone i ch c s at gone = rw (at, gone) refl

-- The pointer that glb_popdata follows is NULL when the connection has no channels.
glb_popdata-gone :
    {W : Type 0} (info : RecvInfo) (i : ℕ) (c : Conn) (s : St W)
    → info.con ≡ some i
    → info.has_buffer ≡ true
    → 0 < info.buflen
    → info.channel_id < s.ctx.channel_count
    → get_elem? s.ctx.connections i ≡ some c
    → c.channels ≡ none
    → glb_popdata (some info) s ≡ fault
unfolding glb_popdata ◌>>=◌ get_ctx get_conn deref
glb_popdata-gone info i c s con buffer room inside at gone =
    let past : (not info.has_buffer
          || (info.buflen == 0)
          || leb s.ctx.channel_count info.channel_id)
        ≡ false =
      ground (arith, buffer, room, inside) in
    rw (con, past, at, get_channel-gone i info.channel_id c s at gone) refl

-- An RST that finds an established connection `i` leaves it so that the next glb_popdata on it, with a
-- buffer and one of the context's channels, follows NULL: its channels are gone, and glb_popdata does not
-- look at its state.
pub glb_popdata-on_rst :
    (os : Os) (info : RecvInfo) (i : ℕ) (c : Conn) (pkg : Pkg) (s : St (Os.World os))
    → get_elem? s.ctx.connections i ≡ some c
    → is_established c.state ≡ true
    → glbctx_findconn s.ctx.connections pkg.header.client_gen pkg.header.client_id ≡ some i
    → info.con ≡ some i
    → info.has_buffer ≡ true
    → 0 < info.buflen
    → info.channel_id < s.ctx.channel_count
    → Ensures (on_rst os pkg s) (λ _ t. glb_popdata (some info) t ≡ fault)
glb_popdata-on_rst os info i c pkg s at open_ found con buffer room inside =
    let shut : Conn = record c { state = closed; channels = kept_channels c } in
    Ensures_of_ok (λ _ t. glb_popdata (some info) t ≡ fault) (on_rst os pkg s) pkg
      (after_rst os s i c at) (on_rst_lem os s i c at pkg found)
      (glb_popdata-gone info i shut (after_rst os s i c at) con buffer room inside
        (get_elem?-set_self s.ctx.connections i shut (lt_of_get_elem? s.ctx.connections i at))
        (rw open_ refl))
