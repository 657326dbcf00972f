-- ===== src/Invariant/Turn/Live.antt =====
-- Connections whose channels are in use: reading one, and one of its channels, as turns. The reads
-- model those of src/libgilberta/gilberta.c.
use libgilberta.Base.{ℕ, ◌<◌, ◌≡◌, refl, true, false, arith, get_elem?_of_lt, Bool-cases, inl, inr}
use libgilberta.State.{Conn, Channel}
use libgilberta.Effect.{M, deref, get_conn, ◌>>=◌}
use libgilberta.Tick.Common.{get_channel}
use libgilberta.Invariant.Access.{get_channel-Found}
use libgilberta.Invariant.{ChannelOk, ConnOk, is_live}
use libgilberta.Invariant.Stage.{Stage, plain, ready, At-ready}
use libgilberta.Invariant.Turn.{Setting, Turn}

module _ {e : Setting} {st' : Stage} where
  open e use {os, n, k}

  -- A connection that is read: if its channels are in use, they are there.
  pub Turn-get_live :
      {A : Type 0} (i : ℕ) (f : Conn → M (os.World) A)
      → i < k
      → ((c : Conn) → ConnOk n c → is_live c.state ≡ true → Turn e (ready i) st' (f c))
      → ((c : Conn) → ConnOk n c → is_live c.state ≡ false → Turn e plain st' (f c))
      → Turn e plain st' (get_conn i >>= f)
  unfolding ◌>>=◌ get_conn deref
  Turn-get_live i f lt used idle = record {
    ensures = λ s h.
        let (c, is) =
          get_elem?_of_lt s.ctx.connections i (omega (arith, h.at.connections_length)) in
        let well = h.at.each i c is in
        rw is (elim (Bool-cases (is_live c.state)) [
          | inl live ↦
              (used c well live).ensures s
                (record { at = At-ready s.ctx i c is (well.live live) h.at; left = h.left })
          | inr dead ↦ (idle c well dead).ensures s h
        ]);
  }

  -- A channel of a connection that has them.
  pub Turn-get_channel :
      {A : Type 0} (i ch : ℕ) (f : Channel → M (os.World) A)
      → i < k
      → ch < n
      → ((c : Channel) → ChannelOk c → Turn e (ready i) st' (f c))
      → Turn e (ready i) st' (get_channel i ch >>= f)
  unfolding ◌>>=◌
  Turn-get_channel i ch f lt inside q = record {
    ensures = λ s h.
        let (con, is) =
          get_elem?_of_lt s.ctx.connections i (omega (arith, h.at.connections_length)) in
        let (well, has) = h.at.each i con is in
        let c = get_channel-Found s i ch con well.shape (has refl) is inside in
        rw c.found ((q c.channel c.is_ok).ensures s h);
  }
