-- ===== src/View/Opening.antt =====
-- The channels of a connection that the handshake opens (src/libgilberta/gilberta.c), at each end.
use libgilberta.Base.{ℕ, ◌≡◌, refl, subst, List, [], ◌∷◌, Option, some, Bool, true, false, All, map}
use libgilberta.Packet.{Pkg, ConId}
use libgilberta.State.{Conn, Channel, Channels, Event}
use libgilberta.Os.{Os}
use libgilberta.Context.{acked}
use libgilberta.Tick.Handshake.{note_desync, establish, open_client}
use libgilberta.View.{
  View, Untouched, View-brings, View-untouched, View-modify_conn, View-pure, View-get_channel,
}
use libgilberta.View.Creation.{IsEmpty, AllEmpty, View-created}
use libgilberta.View.Calls.{
  View-glbctx_writeack, Untouched-push_event, Untouched-tell, Untouched-glbtime_start, Brings-pure,
}

-- A channel right after the handshake: empty, with its first numbers.
pub record Starts (seq ack : ℕ) (x : Channel) : Type 0 where
  pub empty : IsEmpty x
  pub seq_is : x.seq ≡ seq
  pub ack_is : x.ack ≡ ack

-- A connection whose channels all start with the connection's own number and the peer's.
pub record Opened (seq number : ℕ) (id : ConId) (d : Conn) : Type 0 where
  pub chans : Channels
  pub has : d.channels ≡ some chans
  pub starts : All (Starts seq number) chans.items
  pub seq_is : d.seq ≡ seq
  pub id_is : d.conn_id ≡ id

Starts-acked :
    (c : Conn) (number : ℕ) (items : List Channel)
    → All IsEmpty items
    → All
        (Starts c.seq number)
        (map (λ (x : Channel). record x { seq = c.seq; ack = number }) items)
Starts-acked c number [] all = tt
Starts-acked c number (x ∷ items) all = (
  record {
    empty = record {
      s_valid = (all.0).s_valid;
      r_valid = (all.0).r_valid;
      to_send = (all.0).to_send;
      to_take = (all.0).to_take;
    };
    seq_is = refl;
    ack_is = refl;
  },
  Starts-acked c number items all.1,
)

all_empty :
    (o : Option Channels) (chans : Channels) → o ≡ some chans → AllEmpty o → All IsEmpty chans.items
all_empty o chans e h = subst AllEmpty e h

module _ (os : Os) where
  open os use {World}

  pub Untouched-note_desync : (b : Bool) → Untouched (note_desync os b)
  unfolding note_desync
  Untouched-note_desync false = Brings-pure tt tt
  Untouched-note_desync true = Untouched-tell _

  -- The server, which answers an ACK.
  pub View-establish :
      (i : ℕ) (c : Conn) (pkg : Pkg)
      → View i c (establish os i pkg) (λ _ d. Opened c.seq pkg.header.seq c.conn_id d)
  unfolding establish
  View-establish i c pkg = View-modify_conn _ _ (
      View-created os i _ _ (λ status o empty.
        View-glbctx_writeack os i pkg.header.seq _ _ (λ chans has.
          View-untouched _ _ (Untouched-push_event (Event.connect i)) (
            View-get_channel 0 _ _ refl (λ first here. View-modify_conn _ _ (
              View-brings _ _ (Untouched-glbtime_start os _) (λ keepalive _. View-modify_conn _ _ (
                View-pure pkg (record {
                  chans = acked c pkg.header.seq chans;
                  has = refl;
                  starts = Starts-acked c pkg.header.seq chans.items (all_empty o chans has empty);
                  seq_is = refl;
                  id_is = refl;
                })))))))))

  -- The client, on the first SYN ACK.
  pub View-open_client :
      (c : Conn) (pkg : Pkg)
      → View 0 c (open_client os pkg) (λ _ d. Opened c.seq pkg.header.seq c.conn_id d)
  unfolding open_client
  View-open_client c pkg = View-created os 0 _ _ (λ status o empty.
      View-untouched _ _ (Untouched-push_event (Event.connect 0)) (
        View-modify_conn _ _ (
          View-brings _ _ (Untouched-glbtime_start os _) (λ keepalive _. View-modify_conn _ _ (
            View-glbctx_writeack os 0 pkg.header.seq _ _ (λ chans has.
              View-get_channel 0 _ _ refl (λ first here. View-pure tt (record {
                chans = acked c pkg.header.seq chans;
                has = refl;
                starts = Starts-acked c pkg.header.seq chans.items (all_empty o chans has empty);
                seq_is = refl;
                id_is = refl;
              }))))))))
