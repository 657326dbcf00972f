-- ===== src/Invariant/Access.antt =====
-- The channels of a connection that is in use (src/libgilberta/gilberta.c): they are there, and an
-- access to one stays inside their array.
use libgilberta.Base.{
  ℕ, ◌<◌, ◌≡◌, ◌≢◌, refl, ◌∙◌, subst, Option, none, some, true, get_elem?, arith, get_elem?_of_lt,
  All-get_elem?, All-set, length-set, Option-cases, inl, inr,
}
use libgilberta.State.{
  Conn, ConnState, Channel, Channels, closed, established, syn_sent, syn_rcvd, fin_sent,
}
use libgilberta.Effect.{St, ok, ◌>>=◌, get_conn, deref}
use libgilberta.Context.{is_established}
use libgilberta.Tick.Common.{get_channel}
use libgilberta.Tick.Data.{with_channel}
use libgilberta.Invariant.{is_live, ChannelOk, ChannelsOk, ConnOk}

-- A connection that is established is one whose channels are used.
pub is_live_of_established :
    (con : Conn) → is_established con.state ≡ true → is_live con.state ≡ true
is_live_of_established con e = go con.state e
  where
    go : (st : ConnState) → is_established st ≡ true → is_live st ≡ true
    go established e = refl
    go closed e = ground arith
    go syn_sent e = ground arith
    go syn_rcvd e = ground arith
    go fin_sent e = refl

-- The channel that `get_channel` finds.
pub record Found {W : Type 0} (s : St W) (i ch : ℕ) : Type 0 where
  pub channel : Channel
  pub is_ok : ChannelOk channel
  pub found : get_channel i ch s ≡ ok channel s

pub get_channel-Found :
    {n : ℕ} {W : Type 0} (s : St W) (i ch : ℕ) (con : Conn)
    → ChannelsOk n con.channels
    → con.channels ≢ none
    → get_elem? s.ctx.connections i ≡ some con
    → ch < n
    → Found s i ch
unfolding get_channel ◌>>=◌ get_conn deref
get_channel-Found {n = n} s i ch con shape has at lt = elim (Option-cases con.channels) [
  | inl missing ↦ absurd (has missing)
  | inr (chans, e) ↦
      let (len, all) = subst (ChannelsOk n) e shape in
      let (c, here) = get_elem?_of_lt chans.items ch (omega (arith, len, lt)) in
      record {
        channel = c;
        is_ok = All-get_elem? ChannelOk chans.items ch all here;
        found = rw (at, e, here) refl;
      }
]

-- A channel that is well formed can be written back.
pub ConnOk-with_channel :
    {n : ℕ} (con : Conn) (ch : ℕ) (c : Channel)
    → ConnOk n con
    → ChannelOk c
    → ConnOk n (with_channel ch c con)
ConnOk-with_channel {n = n} con ch c v well = go con.channels v
  where
    go :
        (o : Option Channels)
        → ConnOk n (record con { channels = o })
        → ConnOk n (with_channel ch c (record con { channels = o }))
    go none v = v
    go (some chans) v = record {
      live = λ _ nothing. some≢none nothing;
      shape = (
        length-set chans.items ch c ∙ v.shape.0,
        All-set ChannelOk chans.items ch c v.shape.1 well,
      );
    }
      where
        some≢none : {d : Channels} → ◌≢◌ {A = Option Channels} (some d) none
        some≢none e = ground arith
