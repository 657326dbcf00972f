-- ===== src/View/Handshake.antt =====
-- The handshake of src/libgilberta/gilberta.c as each end sees its own connection.
use libgilberta.Base.{
  ℕ, ◌≡◌, refl, sym, ap, subst, true, false, not, ◌||◌, ◌==◌, leb, arith, All-get_elem?,
}
use libgilberta.Packet.{Pkg, ConId, glbpkg_init, flag_ack, flag_syn_ack}
use libgilberta.State.{Conn, syn_sent, Channel}
use libgilberta.Os.{Os}
use libgilberta.Effect.{pure, get_conn, ◌>>=◌, ◌>>◌}
use libgilberta.Io.{with_checksum}
use libgilberta.Context.{is_established}
use libgilberta.Tick.Common.{is_success, max_retry}
use libgilberta.Tick.Handshake.{
  note_desync, open_client, send_client_ack, adopt_id, on_syn_ack, is_syn_sent,
}
use libgilberta.Tick.Timers.{numbered, syn_rcvd_expired, send_and_wait}
use libgilberta.View.{
  View, View->>, View-brings, View-untouched, View-get_conn, View-put_conn, View-modify_conn,
  View-modify_to, View-if, View-pure, View-get_channel,
}
use libgilberta.View.Calls.{Untouched-glbtime_start, Brings-glbio_send}
use libgilberta.View.Opening.{Starts, Opened, Untouched-note_desync, View-open_client}

-- A handshake packet with the sender's number, the peer's, and the identifier of the connection.
pub record Carries (seq ack : ℕ) (id : ConId) (pkg : Pkg) : Type 0 where
  pub seq_is : pkg.header.seq ≡ seq
  pub ack_is : pkg.header.ack ≡ ack
  pub id_is : pkg.header.client_id ≡ id.id
  pub generation_is : pkg.header.client_gen ≡ id.generation

Carries-sealed :
    {seq ack : ℕ} {id : ConId} (pkg sent : Pkg)
    → sent ≡ with_checksum pkg
    → Carries seq ack id pkg
    → Carries seq ack id sent
Carries-sealed {seq} {ack} {id} pkg sent e v = subst (Carries seq ack id) (sym e) (record {
  seq_is = v.seq_is;
  ack_is = v.ack_is;
  id_is = v.id_is;
  generation_is = v.generation_is;
})

module _ (os : Os) where
  open os use {World}

  -- The ACK of the client: its connection stays as it is or becomes established.
  View-send_client_ack :
      (c : Conn) (pkg : Pkg) {seq number : ℕ} {id : ConId}
      → Opened seq number id c
      → View 0 c
          (send_client_ack os pkg)
          (λ sent d. Opened seq number id d × Carries seq number id sent)
  unfolding send_client_ack glbpkg_init
  View-send_client_ack c pkg {seq} {number} {id} o = View-get_conn _ (
      View-get_channel 0 o.chans _ o.has (λ first here.
        let s = All-get_elem? (Starts seq number) o.chans.items 0 o.starts here in
        View-brings _ _ (Brings-glbio_send os _ c.peer_addr) (λ answer sealed.
          let carries : Carries seq number id answer.1 =
            Carries-sealed (ack_of first) answer.1 sealed (record {
              seq_is = s.seq_is;
              ack_is = s.ack_is;
              id_is = ap (λ x. x.id) o.id_is;
              generation_is = ap (λ x. x.generation) o.id_is;
            }) in
          View-if (is_success answer.0) _ _
            (λ _. View-modify_conn _ _ (
              View-pure _ (
                record {
                  chans = o.chans;
                  has = o.has;
                  starts = o.starts;
                  seq_is = o.seq_is;
                  id_is = o.id_is;
                },
                carries,
              )))
            (λ _. View-pure _ (o, carries)))))
    where
      ack_of : Channel → Pkg
      ack_of first =
          let blank = glbpkg_init pkg c.conn_id flag_ack 0 in
          record blank { header = record (blank.header) { ack = first.ack; seq = first.seq } }

  pub View-on_syn_ack :
      (c : Conn) (pkg : Pkg)
      → c.state ≡ syn_sent
      → let id : ConId = record { id = pkg.header.client_id; generation = pkg.header.client_gen } in
        View 0 c
          (on_syn_ack os pkg)
          (λ sent d. Opened c.seq pkg.header.seq id d × Carries c.seq pkg.header.seq id sent)
  unfolding on_syn_ack
  View-on_syn_ack c pkg waits =
      let id : ConId = record { id = pkg.header.client_id; generation = pkg.header.client_gen } in
      let c' : Conn = record c { conn_id = id } in
      View-modify_to (adopt_id os pkg) _ c' adopted (
        View-get_conn _ (
          View->> {P = Opened c.seq pkg.header.seq id} _ _
            (View-if (is_established c.state) (pure tt) (open_client os pkg)
              (λ open_. ground (arith, open_, waits)) (λ _. View-open_client os c' pkg))
            answered))
    where
      adopted : adopt_id os pkg c ≡ record c {
        conn_id = record { id = pkg.header.client_id; generation = pkg.header.client_gen };
      }
      adopted = let hit : is_syn_sent c.state ≡ true = ap is_syn_sent waits in rw hit refl

      answered :
          (d : Conn)
          → let id : ConId = record {
            id = pkg.header.client_id;
            generation = pkg.header.client_gen;
          } in
            Opened c.seq pkg.header.seq id d
            → View 0 d
                (get_conn 0 >>= λ con'.
                  note_desync os
                    (not (con'.seq == pkg.header.ack) || not (con'.ack == pkg.header.seq))
                  >> send_client_ack os pkg)
                (λ sent x. Opened c.seq pkg.header.seq id x × Carries c.seq pkg.header.seq id sent)
      answered d o =
          View-get_conn
            (λ con'.
              note_desync os (not (con'.seq == pkg.header.ack) || not (con'.ack == pkg.header.seq))
              >> send_client_ack os pkg)
            (View-untouched _ _ (Untouched-note_desync os _) (View-send_client_ack d pkg o))

  -- The server repeats its SYN ACK while it waits.
  pub View-syn_rcvd_expired :
      (i : ℕ) (c : Conn) (pkg : Pkg)
      → leb max_retry c.retry ≡ false
      → View i c (syn_rcvd_expired os i pkg) (λ sent d.
        ((d.state ≡ c.state) × (d.seq ≡ c.seq) × (d.ack ≡ c.ack) × (d.conn_id ≡ c.conn_id))
        × Carries c.seq c.ack c.conn_id sent)
  unfolding syn_rcvd_expired send_and_wait glbpkg_init
  View-syn_rcvd_expired i c pkg more = View-get_conn _ (
      View-if (leb max_retry c.retry) _ _ (λ enough. ground (arith, enough, more))
        (λ _. View-get_conn _ (
          View-brings _ _ (Brings-glbio_send os syn_ack c.peer_addr) (λ answer sealed.
            View-brings _ _ (Untouched-glbtime_start os _) (λ time _. View-put_conn _ _ (
              View-pure answer.1 (
                (refl, refl, refl, refl),
                Carries-sealed syn_ack answer.1 sealed
                    (record { seq_is = refl; ack_is = refl; id_is = refl; generation_is = refl }),
              )))))))
    where
      syn_ack : Pkg
      syn_ack = numbered (glbpkg_init pkg c.conn_id flag_syn_ack 0) c.seq c.ack
