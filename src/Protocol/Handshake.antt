-- ===== src/Protocol/Handshake.antt =====
-- The three packets that open a connection of src/libgilberta/gilberta.c: both ends end with the same
-- numbers, which is where Protocol/Delivery starts.
use libgilberta.Base.{
  ℕ, ◌<◌, ◌≡◌, refl, sym, ap, ap₂, ◌∙◌, subst, [], some, true, false, leb, All-get_elem?, get_elem?,
  arith,
}
use libgilberta.Packet.{Pkg, ConId}
use libgilberta.State.{Conn, syn_sent, syn_rcvd, Channel, Channels}
use libgilberta.Os.{Os}
use libgilberta.Effect.{St, Run, ok}
use libgilberta.Context.{glbctx_findconn}
use libgilberta.Tick.Common.{is_reliable, max_retry}
use libgilberta.Tick.Handshake.{on_syn_ack, on_ack, is_syn_rcvd}
use libgilberta.Tick.Timers.{syn_rcvd_expired}
use libgilberta.Os.Benign.{Benign}
use libgilberta.Invariant.{Inv, Ensures}
use libgilberta.Invariant.Rules.{Ensures-weaken}
use libgilberta.View.Total.{Ensures-of_Ends}
use libgilberta.Invariant.Turn.Handshake.{Turn-on_ack}
use libgilberta.Protocol.{Link}
use libgilberta.Protocol.Delivery.{IsFresh}
use libgilberta.View.{Ends, Ends-get_ctx, Ends-found, Seen, View-get_conn, View-if, View-untouched}
use libgilberta.View.Slot.{HasChannel}
use libgilberta.View.Opening.{Starts, Opened, View-establish, Untouched-note_desync}
use libgilberta.View.Handshake.{Carries, View-on_syn_ack, View-syn_rcvd_expired}

-- The direction of a channel from one end to the other, before anything was sent.
abbrev pub direction : Channel → Channel → Link
direction x y = record {
  sender = x;
  receiver = y;
  datagrams = [];
  acks = [];
  sent = [];
  taken = [];
}

-- Both ends have the same identifier, and each channel is fresh in both directions where it is
-- reliable.
pub record Agree (client server : Conn) : Type 0 where
  pub same_id : client.conn_id ≡ server.conn_id
  pub to_server :
      (ch : ℕ) (x y : Channel)
      → HasChannel client ch x
      → HasChannel server ch y
      → is_reliable y ≡ true
      → IsFresh (direction x y)
  pub to_client :
      (ch : ℕ) (x y : Channel)
      → HasChannel client ch x
      → HasChannel server ch y
      → is_reliable x ≡ true
      → IsFresh (direction y x)

-- What is known of a channel of an opened connection.
Starts-at :
    {seq number : ℕ} {id : ConId} (d : Conn) (ch : ℕ) (x : Channel)
    → Opened seq number id d
    → HasChannel d ch x
    → Starts seq number x
Starts-at {seq} {number} d ch x o h =
    let same : o.chans ≡ h.chans = some_injective (sym o.has ∙ h.has) in
    All-get_elem? (Starts seq number) o.chans.items ch o.starts
      (ap (λ (cs : Channels). get_elem? cs.items ch) same ∙ h.at)
  where
    some_injective : {a b : Channels} → some a ≡ some b → a ≡ b
    some_injective e = ground arith

IsFresh-direction :
    {seq number : ℕ} (x y : Channel)
    → Starts seq number x
    → Starts number seq y
    → is_reliable y ≡ true
    → IsFresh (direction x y)
IsFresh-direction x y s t reliable = record {
  s_valid = s.empty.s_valid;
  r_valid = t.empty.r_valid;
  s_empty = s.empty.to_send;
  r_empty = t.empty.to_take;
  reliable = reliable;
  in_step = t.ack_is ∙ sym s.seq_is;
  no_datagrams = refl;
  no_acks = refl;
  none_sent = refl;
  none_taken = refl;
}

Agree-of_Opened :
    {seq number : ℕ} {id : ConId} (client server : Conn)
    → Opened seq number id client
    → Opened number seq id server
    → Agree client server
Agree-of_Opened client server c s = record {
  same_id = c.id_is ∙ sym s.id_is;
  to_server = λ ch x y hx hy reliable.
      IsFresh-direction x y (Starts-at client ch x c hx) (Starts-at server ch y s hy) reliable;
  to_client = λ ch x y hx hy reliable.
      IsFresh-direction y x (Starts-at server ch y s hy) (Starts-at client ch x c hx) reliable;
}

-- The outcome of a run that ended.
module _ {W A : Type 0} where
  outcome : (Q : A → St W → Type 0) (r : Run W A) (a : A) (t : St W) → r ≡ ok a t → Ends r Q → Q a t
  outcome Q r a t e q = subst (λ x. Ends x Q) e q

-- The part of the ACK branch behind its search.
View-on_ack :
    (os : Os) (i : ℕ) (c : Conn) (pkg : Pkg) (s : St (Os.World os))
    → get_elem? s.ctx.connections i ≡ some c
    → c.state ≡ syn_rcvd
    → glbctx_findconn s.ctx.connections pkg.header.client_gen pkg.header.client_id ≡ some i
    → Ends (on_ack os pkg s) (λ _ t. Seen i (Opened c.seq pkg.header.seq c.conn_id) t)
unfolding on_ack
View-on_ack os i c pkg s at waits found =
    Ends-get_ctx (λ _ t. Seen i (Opened c.seq pkg.header.seq c.conn_id) t) s _
      (Ends-found (λ _ t. Seen i (Opened c.seq pkg.header.seq c.conn_id) t) s _ _ _ i found
        ((View-get_conn _ (
            View-if (is_syn_rcvd c.state) _ _
              (λ _. View-untouched _ _ (Untouched-note_desync os _) (View-establish os i c pkg))
              (λ other. ground (arith, other, waits)))).ends
          s at))

Opened-cong :
    {seq seq' number number' : ℕ} {id id' : ConId} {d : Conn}
    → seq ≡ seq'
    → number ≡ number'
    → id ≡ id'
    → Opened seq number id d
    → Opened seq' number' id' d
Opened-cong {seq} {seq'} {number} {id = id} {id'} {d} e f g o =
    subst (λ x. Opened seq' x id' d) f
      (subst (λ x. Opened x number id' d) e (subst (λ x. Opened seq number x d) g o))

-- What the View lemmas say of the first two packets.
abbrev Waiting : Conn → Pkg → Conn → Type 0
Waiting c sent d =
    ((d.state ≡ c.state) × (d.seq ≡ c.seq) × (d.ack ≡ c.ack) × (d.conn_id ≡ c.conn_id))
    × Carries c.seq c.ack c.conn_id sent

abbrev Answered : Conn → Pkg → Pkg → Conn → Type 0
Answered c pkg sent d =
    let id : ConId = record { id = pkg.header.client_id; generation = pkg.header.client_gen } in
    Opened c.seq pkg.header.seq id d × Carries c.seq pkg.header.seq id sent

-- Both connections at the end.
pub record Agreement {V W : Type 0} (t : St V) (s : St W) (i : ℕ) : Type 0 where
  pub client : Conn
  pub server : Conn
  pub client_at : get_elem? t.ctx.connections 0 ≡ some client
  pub server_at : get_elem? s.ctx.connections i ≡ some server
  pub agree : Agree client server

-- A server whose connection `i` waits in SYN_RCVD sends its SYN ACK; a client in SYN_SENT handles it and
-- answers; the server, on a context with the invariant and with memory, finds connection `i` for that
-- ACK. Then it handles the ACK without a fault, and afterwards both ends have the same identifier, and
-- every channel that both have is fresh in both directions where it is reliable: empty queues, and each
-- end expects the other's next number.
pub handshake_agrees :
    (on_server on_client : Os) (benign : Benign on_server) (n k i : ℕ) (sc tc : Conn)
    (buffer syn_ack ack : Pkg) (s s' : St (Os.World on_server)) (t t' : St (Os.World on_client))
    → get_elem? s.ctx.connections i ≡ some sc
    → sc.state ≡ syn_rcvd
    → leb max_retry sc.retry ≡ false
    → get_elem? t.ctx.connections 0 ≡ some tc
    → tc.state ≡ syn_sent
    → syn_rcvd_expired on_server i buffer s ≡ ok syn_ack s'
    → on_syn_ack on_client syn_ack t ≡ ok ack t'
    → 0 < n
    → 0 < k
    → Inv n k s'.ctx
    → glbctx_findconn s'.ctx.connections ack.header.client_gen ack.header.client_id ≡ some i
    → Ensures (on_ack on_server ack s') (λ _ s''. Agreement t' s'' i)
handshake_agrees on_server on_client benign n k i sc tc buffer syn_ack ack s s' t t' s_at s_waits
      more t_at t_waits e₁ e₂ has_channels has_connections v found =
    let sent =
      outcome (λ p u. Seen i (Waiting sc p) u) (syn_rcvd_expired on_server i buffer s) syn_ack s' e₁
        ((View-syn_rcvd_expired on_server i sc buffer more).ends s s_at) in
    let opened =
      outcome (λ p u. Seen 0 (Answered tc syn_ack p) u) (on_syn_ack on_client syn_ack t) ack t' e₂
        ((View-on_syn_ack on_client tc syn_ack t_waits).ends t t_at) in
    let ((state, seq, number, id), first) = sent.holds in
    let (client, second) = opened.holds in
    let client_opened =
      Opened-cong refl first.seq_is
        (ap₂ (λ x y. record { id = x; generation = y }) first.id_is first.generation_is) client in
    Ensures-weaken (on_ack on_server ack s')
      (Ensures-of_Ends on_server benign has_channels has_connections
        (λ _ u. Seen i (Opened sent.con.seq ack.header.seq sent.con.conn_id) u)
        (on_ack on_server ack) s' (λ bound. Turn-on_ack ack) v
        (View-on_ack on_server i sent.con ack s' sent.at (state ∙ s_waits) found))
      (λ _ s'' o. record {
        client = opened.con;
        server = o.con;
        client_at = opened.at;
        server_at = o.at;
        agree =
            Agree-of_Opened opened.con o.con client_opened
              (Opened-cong seq second.seq_is id o.holds);
      })
