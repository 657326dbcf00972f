-- ===== src/Session/Silence.antt =====
-- A connection of src/libgilberta/gilberta.c whose peer is silent: the timers of glb_tick give it up.
use libgilberta.Base.{
  ℕ, suc, ◌+◌, ◌≤◌, ◌≡◌, refl, sym, ap, ◌∙◌, subst, some, true, arith, get_elem?, dec_lt,
}
use libgilberta.Packet.{Pkg}
use libgilberta.State.{Ctx, Conn, closed}
use libgilberta.Os.{Os}
use libgilberta.Effect.{St, Run, ok}
use libgilberta.Timer.{glbtime_isexpired}
use libgilberta.Tick.Common.{max_retry}
use libgilberta.Tick.Timers.{connection_step}
use libgilberta.View.{Ends, Seen}
use libgilberta.View.Calls.{Untouched-glbtime_isexpired}
use libgilberta.View.Retry.{
  Retried, is_waiting, expired_body, connection_step-expired, View-expired_body,
}

-- Rounds of the timer loop for connection `i`, each at a time when its timer has run out, between which
-- nothing but the outside changes: no packet arrives for it.
pub data Silent (os : Os) (i : ℕ) : ℕ → St (Os.World os) → St (Os.World os) → Type 0 where
  over : (s : St (Os.World os)) → Silent os i 0 s s
  another :
      (m : ℕ) (s late t u : St (Os.World os)) (c : Conn) (pkg answer : Pkg) (later : Os.World os)
      → get_elem? s.ctx.connections i ≡ some c
      → glbtime_isexpired os c.time s ≡ ok true late
      → connection_step os i pkg s ≡ ok answer t
      → Silent os i m (record t { world = later }) u
      → Silent os i (suc m) s u

module _ (os : Os) (i : ℕ) where
  open os use {World}

  outcome :
      {A : Type 0} (Q : A → St World → Type 0) (r : Run World A) (a : A) (t : St World)
      → r ≡ ok a t
      → Ends r Q
      → Q a t
  outcome Q r a t e q = subst (λ x. Ends x Q) e q

  -- One round.
  Retried-round :
      (s late t : St World) (c : Conn) (pkg answer : Pkg)
      → get_elem? s.ctx.connections i ≡ some c
      → is_waiting c.state ≡ true
      → glbtime_isexpired os c.time s ≡ ok true late
      → connection_step os i pkg s ≡ ok answer t
      → Seen i (Retried c) t
  Retried-round s late t c pkg answer at waits expired done =
      let same =
        outcome (λ _ u. (u.ctx.connections ≡ s.ctx.connections) × Unit {0})
          (glbtime_isexpired os c.time s) true late expired
          ((Untouched-glbtime_isexpired os c.time).ends s) in
      outcome (λ _ u. Seen i (Retried c) u) (expired_body os c.state i pkg late) answer t
        (sym (connection_step-expired os i c pkg s late at waits expired) ∙ done)
        ((View-expired_body os i c pkg c.state waits).ends late
          (ap (λ cs. get_elem? cs i) same.0 ∙ at))

at_rest : (os : Os) (i m : ℕ) (s u : St (Os.World os)) → Silent os i m s u → m ≡ 0 → u.ctx ≡ s.ctx
at_rest os i _ s _ (over _) none_left = refl
at_rest os i _ s u (another m _ late t _ c pkg answer later at expired done rest) none_left =
    absurd (omega (arith, none_left))

-- A connection that waits in SYN_SENT, SYN_RCVD or FIN_SENT and hears nothing is closed after as many
-- expiries of its timer as GLB_MAX_RETRY leaves it, and one more.
pub silence_closes :
    (os : Os) (i m : ℕ) (s u : St (Os.World os)) (c : Conn)
    → Silent os i m s u
    → get_elem? s.ctx.connections i ≡ some c
    → is_waiting c.state ≡ true
    → c.retry + m ≡ max_retry + 1
    → c.retry ≤ max_retry
    → Seen i (λ d. d.state ≡ closed) u
silence_closes os i _ s _ c (over _) at waits total enough = absurd (omega (arith, total, enough))
silence_closes os i _ s u c (another m _ late t _ c' pkg answer later at' expired done rest) at
      waits total enough =
    let same : c' ≡ c = some_injective (sym at' ∙ at) in
    let waits' : is_waiting c'.state ≡ true = ap (λ (x : Conn). is_waiting x.state) same ∙ waits in
    let tries : c'.retry ≡ c.retry = ap (λ (x : Conn). x.retry) same in
    let v = Retried-round os i s late t c' pkg answer at' waits' expired done in
    elim (dec_lt c'.retry max_retry) [
      | yes less ↦
          let (state, retry) = v.holds.repeats less in
          silence_closes os i m (record t { world = later }) u v.con rest v.at
            (ap is_waiting state ∙ waits') (omega (arith, retry, tries, total))
            (omega (arith, retry, less))
      | no more ↦
          let last : u.ctx ≡ t.ctx =
            at_rest os i m (record t { world = later }) u rest (omega arith) in
          record {
            con = v.con;
            at = ap (λ (x : Ctx). get_elem? x.connections i) last ∙ v.at;
            holds = v.holds.gives_up (omega arith);
          }
    ]
  where
    some_injective : {a b : Conn} → some a ≡ some b → a ≡ b
    some_injective e = ground arith
