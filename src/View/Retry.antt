-- ===== src/View/Retry.antt =====
-- The repetitions of src/libgilberta/gilberta.c: a connection that waits for an answer and gets none is
-- closed after GLB_MAX_RETRY of them.
use libgilberta.Base.{
  ℕ, ◌+◌, ◌<◌, ◌≤◌, ◌≡◌, refl, Option, some, none, Bool, true, false, leb, arith, get_elem?,
}
use libgilberta.Base.Words.{u8}
use libgilberta.Status.{ErrorCode, timeout, DisconnectReason, invalid_argument, success}
use libgilberta.Packet.{Pkg}
use libgilberta.State.{
  Conn, ConnState, closed, established, syn_sent, syn_rcvd, fin_sent, Channels, Event,
}
use libgilberta.Os.{Os}
use libgilberta.Effect.{M, St, ok, pure, get_conn, put_conn, deref, tell, ◌>>=◌, ◌>>◌}
use libgilberta.Timer.{glbtime_isexpired}
use libgilberta.Context.{free_queues, glbctx_freeconchannels}
use libgilberta.Tick.Common.{close_conn, max_retry}
use libgilberta.Tick.Timers.{
  send_and_wait, syn_sent_expired, syn_rcvd_expired, fin_sent_expired, when_expired,
  established_step, connection_step,
}
use libgilberta.View.{
  View, View->>, View->>=, View-brings, View-untouched, View-get_conn, View-put_conn,
  View-modify_conn, View-last, View-weaken, View-if, View-pure,
}
use libgilberta.View.Calls.{
  Untouched-push_event, Untouched-tell, Untouched-glbtime_start, Brings-glbio_send,
}
use libgilberta.View.Creation.{Untouched-free_queues}

-- What one expiry makes of a connection that waits.
pub record Retried (c d : Conn) : Type 0 where
  pub gives_up : max_retry ≤ c.retry → d.state ≡ closed
  pub repeats : c.retry < max_retry → (d.state ≡ c.state) × (d.retry ≡ c.retry + 1)

-- The states that wait for an answer of the peer.
abbrev pub is_waiting : ConnState → Bool
is_waiting syn_sent = true
is_waiting syn_rcvd = true
is_waiting fin_sent = true
is_waiting closed = false
is_waiting established = false

module _ (os : Os) (i : ℕ) (c : Conn) where
  open os use {World}

  View-send_and_wait :
      (pkg : Pkg)
      → View i c
          (send_and_wait os i pkg)
          (λ _ d. (d.state ≡ c.state) × (d.retry ≡ u8 (c.retry + 1)))
  unfolding send_and_wait
  View-send_and_wait pkg = View-get_conn _ (
      View-brings _ _ (Brings-glbio_send os pkg c.peer_addr) (λ answer _.
        View-brings _ _ (Untouched-glbtime_start os _)
          (λ time _. View-put_conn _ _ (View-pure answer.1 (refl, refl)))))

  -- What follows while there are repetitions left.
  View-repeats :
      (pkg : Pkg)
      → leb max_retry c.retry ≡ false
      → View i c (send_and_wait os i pkg) (λ _ d. Retried c d)
  View-repeats pkg more = View-weaken _ (View-send_and_wait pkg) (λ _ d h. record {
    gives_up = λ enough. ground (arith, more, enough);
    repeats = λ less. (h.0, omega (arith, h.1));
  })

  View-glbctx_freeconchannels : View i c (glbctx_freeconchannels os i) (λ _ d. d.state ≡ c.state)
  unfolding glbctx_freeconchannels
  View-glbctx_freeconchannels = View-get_conn _ (freed c.channels)
    where
      freed :
          (o : Option Channels)
          → View i c
              (elim o as (λ _. M World ErrorCode) [
                | none ↦ pure invalid_argument
                | some chans ↦ (do
                  free_queues os chans.items
                  tell (λ w. os.free w chans.block)
                  put_conn i (record c { channels = none })
                  pure success)
              ])
              (λ _ d. d.state ≡ c.state)
      freed none = View-pure _ refl
      freed (some chans) =
          View-untouched _ _ (Untouched-free_queues os chans.items)
            (View-untouched _ _ (Untouched-tell _) (View-put_conn _ _ (View-pure _ refl)))

given_up : (c d : Conn) → leb max_retry c.retry ≡ true → d.state ≡ closed → Retried c d
given_up c d enough e = record { gives_up = λ _. e; repeats = λ less. ground (arith, enough, less) }

module _ (os : Os) (i : ℕ) (c : Conn) where
  open os use {World}

  View-close_conn :
      {B : Type 0} (reason : DisconnectReason) (b : B)
      → View i c (close_conn os i reason >> pure b) (λ _ d. d.state ≡ closed)
  unfolding close_conn
  View-close_conn reason b =
      View->> {P = λ d. d.state ≡ closed} _ _
        (View-modify_conn _ _ (
          View->>= _ _ (View-glbctx_freeconchannels os i (record c { state = closed }))
            (λ status d h.
              View-last _ (Untouched-push_event (Event.disconnect i reason)) (λ _. h))))
        (λ d h. View-pure b h)

  View-syn_sent_expired : (pkg : Pkg) → View i c (syn_sent_expired os i pkg) (λ _ d. Retried c d)
  unfolding syn_sent_expired
  View-syn_sent_expired pkg = View-get_conn _ (
      View-if (leb max_retry c.retry) _ _
        (λ enough. View-put_conn _ _ (
          View-untouched _ _ (Untouched-push_event _)
            (View-pure _ (given_up c (record c { state = closed }) enough refl))))
        (λ more. View-repeats os i c _ more))

  View-syn_rcvd_expired : (pkg : Pkg) → View i c (syn_rcvd_expired os i pkg) (λ _ d. Retried c d)
  unfolding syn_rcvd_expired
  View-syn_rcvd_expired pkg = View-get_conn _ (
      View-if (leb max_retry c.retry) _ _
        (λ enough.
          View-put_conn _ _ (View-pure _ (given_up c (record c { state = closed }) enough refl)))
        (λ more. View-repeats os i c _ more))

  View-fin_sent_expired : (pkg : Pkg) → View i c (fin_sent_expired os i pkg) (λ _ d. Retried c d)
  unfolding fin_sent_expired
  View-fin_sent_expired pkg = View-get_conn _ (
      View-if (leb max_retry c.retry) _ _
        (λ enough. View-weaken _ (View-close_conn timeout pkg) (λ _ d h. given_up c d enough h))
        (λ more. View-repeats os i c _ more))

-- In a state that waits, when its timer has run out, a round of the loop over the connections does what
-- the state asks for.
abbrev pub expired_body : (os : Os) → ConnState → ℕ → Pkg → M (Os.World os) Pkg
expired_body os syn_sent i pkg = syn_sent_expired os i pkg
expired_body os syn_rcvd i pkg = syn_rcvd_expired os i pkg
expired_body os fin_sent i pkg = fin_sent_expired os i pkg
expired_body os established i pkg = pure pkg
expired_body os closed i pkg = pure pkg

module _ (os : Os) (i : ℕ) where
  open os use {World}

  when_expired-expired :
      (body : ℕ → Pkg → M World Pkg) (c : Conn) (pkg : Pkg) (s t : St World)
      → get_elem? s.ctx.connections i ≡ some c
      → glbtime_isexpired os c.time s ≡ ok true t
      → when_expired os i body pkg s ≡ body i pkg t
  unfolding when_expired ◌>>=◌ get_conn deref
  when_expired-expired body c pkg s t at late = rw (at, late) refl

  pub connection_step-expired :
      (c : Conn) (pkg : Pkg) (s t : St World)
      → get_elem? s.ctx.connections i ≡ some c
      → is_waiting c.state ≡ true
      → glbtime_isexpired os c.time s ≡ ok true t
      → connection_step os i pkg s ≡ expired_body os c.state i pkg t
  unfolding connection_step ◌>>=◌ get_conn deref
  connection_step-expired c pkg s t at waits late = rw at (go c.state waits)
    where
      go :
          (st : ConnState)
          → is_waiting st ≡ true
          → (elim st as (λ _. M World Pkg) [
            | syn_sent ↦ when_expired os i (syn_sent_expired os) pkg
            | syn_rcvd ↦ when_expired os i (syn_rcvd_expired os) pkg
            | fin_sent ↦ when_expired os i (fin_sent_expired os) pkg
            | established ↦ established_step os i pkg
            | closed ↦ pure pkg
          ])
              s
            ≡ expired_body os st i pkg t
      go syn_sent w = when_expired-expired (syn_sent_expired os) c pkg s t at late
      go syn_rcvd w = when_expired-expired (syn_rcvd_expired os) c pkg s t at late
      go fin_sent w = when_expired-expired (fin_sent_expired os) c pkg s t at late
      go established w = ground (arith, w)
      go closed w = ground (arith, w)

  pub View-expired_body :
      (c : Conn) (pkg : Pkg) (st : ConnState)
      → is_waiting st ≡ true
      → View i c (expired_body os st i pkg) (λ _ d. Retried c d)
  View-expired_body c pkg syn_sent w = View-syn_sent_expired os i c pkg
  View-expired_body c pkg syn_rcvd w = View-syn_rcvd_expired os i c pkg
  View-expired_body c pkg fin_sent w = View-fin_sent_expired os i c pkg
  View-expired_body c pkg established w = ground (arith, w)
  View-expired_body c pkg closed w = ground (arith, w)
