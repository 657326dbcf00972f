-- ===== src/View.antt =====
-- What a function of src/libgilberta makes of one connection, whatever it does elsewhere: rules that
-- follow the connection's value through the code. A run that faults has no outcome.
pub mod Calls
pub mod Creation
pub mod Opening
pub mod Handshake
pub mod Retry
pub mod Total
pub mod Accept
pub mod Closing
pub mod Slot
pub mod Data
pub mod Transmit
pub mod Messages
use libgilberta.Base.{
  ℕ, ◌≡◌, ◌≢◌, refl, sym, ◌∙◌, ap, subst, Option, some, none, Bool, true, false, arith, get_elem?,
  set, get_elem?-set_self, lt_of_get_elem?, if◌then◌else◌,
}
use libgilberta.State.{Ctx, Conn, Channel, Channels}
use libgilberta.Effect.{
  M, St, Run, ok, fault, out_of_fuel, and_then, pure, get_ctx, put_ctx, deref, get_conn, put_conn,
  ask, tell, ◌>>=◌, ◌>>◌,
}
use libgilberta.Packet.{Pkg}
use libgilberta.Context.{glbctx_findconn}
use libgilberta.Tick.Common.{modify_conn, get_channel}

-- The outcome of a run, if it has one.
abbrev pub Ends : {W A : Type 0} → Run W A → (A → St W → Type 0) → Type 0
Ends (ok a t) Q = Q a t
Ends fault Q = Unit {0}
Ends out_of_fuel Q = Unit {0}

pub Ends-and_then :
    {W A B : Type 0} {P : A → St W → Type 0} (Q : B → St W → Type 0) (r : Run W A) (f : A → M W B)
    → Ends r P
    → ((a : A) (t : St W) → P a t → Ends (f a t) Q)
    → Ends (and_then r f) Q
Ends-and_then Q (ok a t) f p k = k a t p
Ends-and_then Q fault f p k = tt
Ends-and_then Q out_of_fuel f p k = tt

module _ {W A : Type 0} (Q : A → St W → Type 0) (s : St W) where
  pub Ends-get_ctx : (f : Ctx → M W A) → Ends (f s.ctx s) Q → Ends ((get_ctx >>= f) s) Q
  unfolding ◌>>=◌ get_ctx
  Ends-get_ctx f q = q

  -- A search that finds connection `i`.
  pub Ends-found :
      (o : Option ℕ) (m : M W A) (f : ℕ → M W A) (i : ℕ)
      → o ≡ some i
      → Ends (f i s) Q
      → Ends ((elim o as (λ _. M W A) [ none ↦ m | some j ↦ f j ]) s) Q
  Ends-found none m f i e q = ground arith
  Ends-found (some j) m f i e q =
      let same : i ≡ j = ground arith in subst (λ x. Ends (f x s) Q) same q

  pub Ends-missing :
      (o : Option ℕ) (m : M W A) (f : ℕ → M W A)
      → o ≡ none
      → Ends (m s) Q
      → Ends ((elim o as (λ _. M W A) [ some j ↦ f j | none ↦ m ]) s) Q
  Ends-missing none m f e q = q
  Ends-missing (some j) m f e q = ground arith

-- Connection `i` is there, and as `Q` says.
pub record Seen {W : Type 0} (i : ℕ) (Q : Conn → Type 0) (t : St W) : Type 0 where
  pub con : Conn
  pub at : get_elem? t.ctx.connections i ≡ some con
  pub holds : Q con

-- From a state in which connection `i` is `c`, `m` ends, if it does, with a result and a connection `i`
-- that satisfy `Q`.
pub record View {W A : Type 0} (i : ℕ) (c : Conn) (m : M W A) (Q : A → Conn → Type 0) : Type 0 where
  pub ends :
      (s : St W) → get_elem? s.ctx.connections i ≡ some c → Ends (m s) (λ a t. Seen i (Q a) t)

-- `m` leaves the connections as they are, and its result, if it has one, satisfies `R`.
pub record Brings {W A : Type 0} (m : M W A) (R : A → Type 0) : Type 0 where
  pub ends : (s : St W) → Ends (m s) (λ a t. (t.ctx.connections ≡ s.ctx.connections) × R a)

abbrev pub Untouched : {W A : Type 0} → M W A → Type 0
Untouched m = Brings m (λ _. Unit {0})

module _ {W A B : Type 0} {i : ℕ} {c : Conn} {Q : B → Conn → Type 0} where
  pub View->>= :
      {P : A → Conn → Type 0} (m : M W A) (f : A → M W B)
      → View i c m P
      → ((a : A) (d : Conn) → P a d → View i d (f a) Q)
      → View i c (m >>= f) Q
  unfolding ◌>>=◌
  View->>= m f p q = record {
    ends = λ s at.
        Ends-and_then (λ b t. Seen i (Q b) t) (m s) f (p.ends s at)
          (λ a t v. (q a v.con v.holds).ends t v.at);
  }

  pub View-brings :
      {R : A → Type 0} (m : M W A) (f : A → M W B)
      → Brings m R
      → ((a : A) → R a → View i c (f a) Q)
      → View i c (m >>= f) Q
  unfolding ◌>>=◌
  View-brings m f p q = record {
    ends = λ s at.
        Ends-and_then (λ b t. Seen i (Q b) t) (m s) f (p.ends s)
          (λ a t same. (q a same.1).ends t (ap (λ cs. get_elem? cs i) same.0 ∙ at));
  }

module _ {W B : Type 0} {i : ℕ} {c : Conn} {Q : B → Conn → Type 0} where
  pub View->> :
      {P : Conn → Type 0} (m : M W (Unit {0})) (r : M W B)
      → View i c m (λ _. P)
      → ((d : Conn) → P d → View i d r Q)
      → View i c (m >> r) Q
  unfolding ◌>>◌
  View->> m r p q = record {
    ends = λ s at.
        Ends-and_then (λ b t. Seen i (Q b) t) (m s) (λ _. r) (p.ends s at)
          (λ _ t v. (q v.con v.holds).ends t v.at);
  }

  pub View-untouched :
      (m : M W (Unit {0})) (r : M W B) → Untouched m → View i c r Q → View i c (m >> r) Q
  unfolding ◌>>◌
  View-untouched m r p q = record {
    ends = λ s at.
        Ends-and_then (λ b t. Seen i (Q b) t) (m s) (λ _. r) (p.ends s)
          (λ a t same. q.ends t (ap (λ cs. get_elem? cs i) same.0 ∙ at));
  }

  pub View-get_conn : (f : Conn → M W B) → View i c (f c) Q → View i c (get_conn i >>= f) Q
  unfolding ◌>>=◌ get_conn deref
  View-get_conn f q = record { ends = λ s at. rw at (q.ends s at) }

  pub View-put_conn : (d : Conn) (r : M W B) → View i d r Q → View i c (put_conn i d >> r) Q
  unfolding ◌>>◌ put_conn
  View-put_conn d r q = record {
    ends = λ s at.
        q.ends (record s { ctx = record (s.ctx) { connections = set s.ctx.connections i d } })
          (get_elem?-set_self s.ctx.connections i d (lt_of_get_elem? s.ctx.connections i at));
  }

  pub View-modify_conn :
      (f : Conn → Conn) (r : M W B) → View i (f c) r Q → View i c (modify_conn i f >> r) Q
  unfolding ◌>>=◌ ◌>>◌ modify_conn get_conn put_conn deref
  View-modify_conn f r q = record {
    ends = λ s at. rw at (
        q.ends (record s { ctx = record (s.ctx) { connections = set s.ctx.connections i (f c) } })
          (get_elem?-set_self s.ctx.connections i (f c) (lt_of_get_elem? s.ctx.connections i at)));
  }

  pub View-modify_to :
      (f : Conn → Conn) (r : M W B) (d : Conn)
      → f c ≡ d
      → View i d r Q
      → View i c (modify_conn i f >> r) Q
  View-modify_to f r d e q = View-modify_conn f r (subst (λ x. View i x r Q) (sym e) q)

  pub View-get_ctx :
      (f : Ctx → M W B)
      → ((ctx : Ctx) → get_elem? ctx.connections i ≡ some c → View i c (f ctx) Q)
      → View i c (get_ctx >>= f) Q
  unfolding ◌>>=◌ get_ctx
  View-get_ctx f q = record { ends = λ s at. (q s.ctx at).ends s at }

  pub View-last : (m : M W B) → Untouched m → ((b : B) → Q b c) → View i c m Q
  View-last m p holds = record { ends = λ s at. kept s at (m s) (p.ends s) }
    where
      kept :
          (s : St W)
          → get_elem? s.ctx.connections i ≡ some c
          → (r : Run W B) → Ends r (λ _ t. (t.ctx.connections ≡ s.ctx.connections) × Unit {0})
          → Ends r (λ b t. Seen i (Q b) t)
      kept s at (ok b t) h = record {
        con = c;
        at = ap (λ cs. get_elem? cs i) h.0 ∙ at;
        holds = holds b;
      }
      kept s at fault h = tt
      kept s at out_of_fuel h = tt

  pub View-weaken :
      {P : B → Conn → Type 0} (m : M W B)
      → View i c m P
      → ((b : B) (d : Conn) → P b d → Q b d)
      → View i c m Q
  View-weaken {P = P} m p f = record { ends = λ s at. weaker (m s) (p.ends s at) }
    where
      weaker : (r : Run W B) → Ends r (λ b t. Seen i (P b) t) → Ends r (λ b t. Seen i (Q b) t)
      weaker (ok b t) h = record { con = h.con; at = h.at; holds = f b h.con h.holds }
      weaker fault h = tt
      weaker out_of_fuel h = tt

  pub View-if :
      (b : Bool) (m r : M W B)
      → (b ≡ true → View i c m Q)
      → (b ≡ false → View i c r Q)
      → View i c (if b then m else r) Q
  View-if true m r p q = p refl
  View-if false m r p q = q refl

  pub View-pure : (b : B) → Q b c → View i c (pure {W = W} b) Q
  unfolding pure
  View-pure b holds = record { ends = λ s at. record { con = c; at = at; holds = holds } }

  -- A channel of the connection, if it has it.
  pub View-get_channel :
      (ch : ℕ) (chans : Channels) (f : Channel → M W B)
      → c.channels ≡ some chans
      → ((x : Channel) → get_elem? chans.items ch ≡ some x → View i c (f x) Q)
      → View i c (get_channel i ch >>= f) Q
  unfolding ◌>>=◌ get_channel get_conn deref
  View-get_channel ch chans f has q = record {
    ends = λ s at. rw (at, has) (found s at (get_elem? chans.items ch) refl);
  }
    where
      found :
          (s : St W)
          → get_elem? s.ctx.connections i ≡ some c
          → (o : Option Channel) → get_elem? chans.items ch ≡ o
          → Ends ((deref o >>= f) s) (λ b t. Seen i (Q b) t)
      found s at none here = tt
      found s at (some x) here = (q x here).ends s at
