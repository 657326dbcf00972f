-- ===== src/View/Transmit.antt =====
-- The retransmission of glb_tick (src/libgilberta/gilberta.c) as one reliable channel sees it.
use libgilberta.Base.{
  ℕ, ◌+◌, ◌≡◌, ◌∙◌, get_elem?, Bool, refl, sym, ap, subst, some, none, Option, true, false, arith,
  ltb, if◌then◌else◌, get_elem?-set_self, lt_of_get_elem?,
}
use libgilberta.Base.Words.{u32, u64}
use libgilberta.Queue.Slots
use libgilberta.Packet.{Pkg}
use libgilberta.State.{Conn, Channel, Event}
use libgilberta.Os.{Os}
use libgilberta.Effect.{
  M, St, Run, ok, fault, out_of_fuel, and_then, get_conn, deref, pure, put_conn, ◌>>=◌,
}
use libgilberta.Io.{glbio_send, with_checksum}
use libgilberta.Timer.{glbtime_isexpired}
use libgilberta.Tick.Common.{is_reliable, max_retry, retransmission_timeout}
use libgilberta.Tick.Data.{with_channel}
use libgilberta.Tick.Timers.{after_send, transmit_channel}
use libgilberta.Api.Messages.{Reaches, found-channel}
use libgilberta.View.{
  Ends, Seen, View, View-brings, View-get_conn, View-put_conn, View-if, View-weaken, View-last,
}
use libgilberta.View.Calls.{
  Untouched-push_event, Untouched-glbtime_start, Untouched-glbtime_isexpired, Brings-glbio_send,
}
use libgilberta.View.Slot.{HasChannel, HasChannel-same, HasChannel-with_channel, View-channel_is}

-- The head of the send queue was sent: it stays there, sealed, with a new timer and count.
pub record Resent (ch : ℕ) (x : Channel) (p : Pkg) (d : Conn) : Type 0 where
  pub time : ℕ
  pub count : ℕ
  pub holds : HasChannel d ch (record x {
    s_queue =
        Slots.poke x.s_queue
          (record (with_checksum p) { timestamp = time; retransmit_count = count });
  })

-- A write that ends a function.
View-put_last :
    {W : Type 0} {i : ℕ} {c : Conn} {Q : Unit {0} → Conn → Type 0} (d : Conn)
    → Q tt d
    → View i c (put_conn {W = W} i d) Q
unfolding put_conn
View-put_last {i = i} {c} d q = record {
  ends = λ s at. record {
    con = d;
    at = get_elem?-set_self s.ctx.connections i d (lt_of_get_elem? s.ctx.connections i at);
    holds = q;
  };
}

module _ (os : Os) where
  open os use {World}

  View-after_send :
      (i ch : ℕ) (con : Conn) (x : Channel) (p sent : Pkg)
      → HasChannel con ch x
      → is_reliable x ≡ true
      → sent ≡ with_checksum p
      → View i con (after_send os i ch sent) (λ _ d. Resent ch x p d)
  unfolding after_send
  View-after_send i ch con x p sent h reliable sealed = View-get_conn _ (
      View-channel_is ch x _ h (
        View-if (is_reliable x) _ _
          (λ _. View-brings _ _ (Untouched-glbtime_start os retransmission_timeout) (λ time _.
            View-if (ltb max_retry (u64 (sent.retransmit_count + 1))) _ _
              (λ _. View-put_conn _ _ (
                View-last _ (Untouched-push_event (Event.stalled i sent.header.seq))
                  (λ _. record { time = time; count = 0; holds = lost time })))
              (λ _. View-put_last _ (record {
                time = time;
                count = u64 (sent.retransmit_count + 1);
                holds = stays time (u64 (sent.retransmit_count + 1));
              }))))
          (λ not_reliable. ground (arith, reliable, not_reliable))))
    where
      again : ℕ → ℕ → Pkg → Channel
      again time count q = record x {
        s_queue = Slots.poke x.s_queue (record q { timestamp = time; retransmit_count = count });
      }

      stays :
          (time count : ℕ)
          → HasChannel
              (with_channel ch (again time count sent) con)
              ch
              (again time count (with_checksum p))
      stays time count =
          subst
            (λ q. HasChannel (with_channel ch (again time count sent) con) ch (again time count q))
            sealed (HasChannel-with_channel con ch x (again time count sent) h)

      lost :
          (time : ℕ)
          → HasChannel
              (record (with_channel ch (again time 0 sent) con) {
                loss_count = u32 (con.loss_count + 1);
              })
              ch
              (again time 0 (with_checksum p))
      lost time = HasChannel-same _ _ ch _ refl (stays time 0)

-- The packet that the retransmission hands to `sendto`, if the timer of the head has run out.
abbrev pub if_expired : {W : Type 0} → Pkg → Run W Bool → Option Pkg
if_expired p (ok true t) = some (with_checksum p)
if_expired p (ok false t) = none
if_expired p fault = none
if_expired p out_of_fuel = none

abbrev pub handed : (os : Os) → Channel → St (Os.World os) → Option Pkg
handed os x s = elim (Slots.peek x.s_queue) [
  | none ↦ none
  | some p ↦ if_expired p (glbtime_isexpired os p.timestamp s)
]

-- What that packet, or its absence, says of the channel.
abbrev pub Handed : Option Pkg → ℕ → Channel → Conn → Type 0
Handed none ch x d = HasChannel d ch x
Handed (some sealed) ch x d =
    (p : Pkg) × (Slots.peek x.s_queue ≡ some p) × (sealed ≡ with_checksum p) × Resent ch x p d

-- The code behind the search for the channel.
module _ (os : Os) (i ch : ℕ) (con : Conn) where
  open os use {World}

  abbrev sending : Pkg → Bool → M World (Unit {0})
  sending p expired =
      if expired
      then (do (status, sent) ← glbio_send os p con.peer_addr; after_send os i ch sent)
      else pure tt

  abbrev by_head : Option Pkg → M World (Unit {0})
  by_head o = elim o [
    | none ↦ pure tt
    | some p ↦ (do expired ← glbtime_isexpired os p.timestamp; sending p expired)
  ]

module _ (os : Os) (s : St (Os.World os)) (i ch : ℕ) (con : Conn) (x : Channel)
    (at : get_elem? s.ctx.connections i ≡ some con) (h : HasChannel con ch x)
    (reliable : is_reliable x ≡ true) where
  open os use {World}

  Ends-if_expired :
      (p : Pkg) (r : Run World Bool)
      → Slots.peek x.s_queue ≡ some p
      → Ends r (λ _ t. (t.ctx.connections ≡ s.ctx.connections) × Unit {0})
      → Ends (and_then r (sending os i ch con p)) (λ _ t. Seen i (Handed (if_expired p r) ch x) t)
  unfolding pure
  Ends-if_expired p (ok true t) head same =
      (View-brings _ _ (Brings-glbio_send os p con.peer_addr) (λ answer sealed.
          View-weaken _ (View-after_send os i ch con x p answer.1 h reliable sealed)
            (λ _ d resent. (p, head, refl, resent)))).ends
        t (ap (λ cs. get_elem? cs i) same.0 ∙ at)
  Ends-if_expired p (ok false t) head same = record {
    con = con;
    at = ap (λ cs. get_elem? cs i) same.0 ∙ at;
    holds = h;
  }
  Ends-if_expired p fault head same = tt
  Ends-if_expired p out_of_fuel head same = tt

  Ends-by_head :
      (o : Option Pkg)
      → Slots.peek x.s_queue ≡ o
      → Ends (by_head os i ch con o s) (λ _ t.
        Seen i
          (Handed
            (elim o as (λ _. Option Pkg) [
              | none ↦ none
              | some p ↦ if_expired p (glbtime_isexpired os p.timestamp s)
            ])
            ch
            x)
          t)
  unfolding ◌>>=◌ pure
  Ends-by_head none e = record { con = con; at = at; holds = h }
  Ends-by_head (some p) e =
      Ends-if_expired p (glbtime_isexpired os p.timestamp s) e
        ((Untouched-glbtime_isexpired os p.timestamp).ends s)

  get_conn_is : get_conn i s ≡ ok con s
  unfolding get_conn deref
  get_conn_is = rw at refl

  -- The whole retransmission of the channel.
  pub Ends-transmit_channel :
      Ends (transmit_channel os i ch s) (λ _ t. Seen i (Handed (handed os x s) ch x) t)
  unfolding transmit_channel ◌>>=◌
  Ends-transmit_channel =
      let r : Reaches s i ch con x = record {
        chans = h.chans;
        at = at;
        has = h.has;
        here = h.at;
      } in
      let run : transmit_channel os i ch s ≡ by_head os i ch con (Slots.peek x.s_queue) s =
        rw get_conn_is (rw (and_then, found-channel r) refl) in
      subst (λ r. Ends r (λ _ t. Seen i (Handed (handed os x s) ch x) t)) (sym run)
        (Ends-by_head (Slots.peek x.s_queue) refl)
