-- ===== src/Context/Closing.antt =====
-- The end of a connection in src/libgilberta/gilberta.c: its state, its channels' memory, the event.
use libgilberta.Base.{
  ℕ, ◌≡◌, refl, ap, List, some, none, get_elem?, set, set-set, get_elem?-set_self, lt_of_get_elem?,
  ◌-◌,
}
use libgilberta.Status.{ErrorCode, DisconnectReason}
use libgilberta.Queue.Fifo
use libgilberta.Queue.Slots
use libgilberta.Queue.Slots.Laws.{contents, IsValid, push_refines, push-IsValid}
use libgilberta.State.{Conn, closed, Event}
use libgilberta.Os.{Os}
use libgilberta.Effect.{St, get_ctx, put_ctx, deref, get_conn, put_conn, ◌>>=◌, ◌>>◌}
use libgilberta.Tick.Common.{modify_conn, push_event, close_conn}
use libgilberta.Invariant.{Ensures}
use libgilberta.Invariant.Rules.{Ensures_of_ok}
use libgilberta.Os.Books.{Books}
use libgilberta.Context.Freed.{with_conn, freed, glbctx_freeconchannels_lem}
use libgilberta.Context.Owned.{owned, held-freed}

-- The end of connection `i`, which was `c`: it is closed and has no channels, the event is offered to
-- the event queue, and every block that its channels own is given back.
pub record Closes {os : Os} (books : Books os) (i : ℕ) (c : Conn) (reason : DisconnectReason)
    (before after : St (Os.World os)) : Type 0 where
  pub connections_are :
      after.ctx.connections
      ≡ set before.ctx.connections i (record c { state = closed; channels = none })
  pub valid : IsValid after.ctx.eventqueue
  pub events_are :
      contents after.ctx.eventqueue
      ≡ (Fifo.push before.ctx.eventqueue.capacity
          (contents before.ctx.eventqueue)
          (Event.disconnect i reason)).1
  pub blocks : (a : ℕ) → books.held after.world a ≡ books.held before.world a - owned c.channels a

module _ {os : Os} (books : Books os) where
  open os use {World}

  pub close_conn-Closes :
      (s : St World) (i : ℕ) (c : Conn) (reason : DisconnectReason)
      → get_elem? s.ctx.connections i ≡ some c
      → IsValid s.ctx.eventqueue
      → Ensures (close_conn os i reason s) (λ _ t. Closes books i c reason s t)
  unfolding close_conn modify_conn push_event ◌>>=◌ ◌>>◌ get_conn put_conn get_ctx put_ctx deref
  close_conn-Closes s i c reason at v =
      let shut : Conn = record c { state = closed } in
      let s₁ : St World = record s { ctx = with_conn s.ctx i shut } in
      let here =
        get_elem?-set_self s.ctx.connections i shut (lt_of_get_elem? s.ctx.connections i at) in
      let e : Event = Event.disconnect i reason in
      let bare : Conn = record c { state = closed; channels = none } in
      Ensures_of_ok (λ _ t. Closes books i c reason s t) (close_conn os i reason s) tt
        (record {
          ctx = record (with_conn s₁.ctx i bare) { eventqueue = (Slots.push s.ctx.eventqueue e).1 };
          world = freed os c.channels s.world;
        })
        (rw at (rw (glbctx_freeconchannels_lem os s₁ i shut here) refl))
        (record {
          connections_are = set-set s.ctx.connections i shut bare;
          valid = push-IsValid s.ctx.eventqueue v e;
          events_are = ap (λ (r : ErrorCode × List Event). r.1) (push_refines s.ctx.eventqueue v e);
          blocks = held-freed books c.channels s.world;
        })
