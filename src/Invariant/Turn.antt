-- ===== src/Invariant/Turn.antt =====
-- How the functions of src/libgilberta lead from one stage to another without a fault: one rule for
-- each construct of Effect.
pub mod Calls
pub mod Live
pub mod Yields
pub mod Channels
pub mod Writes
pub mod Accept
pub mod Handshake
pub mod Teardown
pub mod Data
pub mod Timers
pub mod Api
use libgilberta.Base.{
  ℕ, ◌≤◌, ◌<◌, ◌≡◌, ◌≢◌, refl, sym, ◌∙◌, Option, some, none, Bool, true, false, arith, get_elem?,
  get_elem?_of_lt, Bool-cases, inl, inr, if◌then◌else◌,
}
use libgilberta.State.{Ctx, Conn, Channel}
use libgilberta.Os.{Os}
use libgilberta.Os.Benign.{Benign}
use libgilberta.Effect.{
  M, St, Run, ok, and_then, pure, get_ctx, put_ctx, deref, get_conn, put_conn, ask, tell, ◌>>=◌,
  ◌>>◌,
}
use libgilberta.Tick.Common.{modify_conn, get_channel}
use libgilberta.Invariant.Access.{get_channel-Found}
use libgilberta.Invariant.{ChannelsOk, ChannelOk, ConnOk, Inv, Ensures, is_live}
use libgilberta.Invariant.Rules.{Ensures-and_then, Ensures-weaken}
use libgilberta.Invariant.Stage.{
  Stage, plain, ready, opening, StageOk, At, At-set, At-ready, At-weaken,
}

-- An outside, the sizes of a context, and a bound on the reads that are left.
pub record Setting : Type 1 where
  pub os : Os
  pub benign : Benign os
  pub n : ℕ
  pub k : ℕ
  pub bound : ℕ
  pub has_channels : 0 < n
  pub has_connections : 0 < k

pub record Good (e : Setting) (st : Stage) (s : St (e.os.World)) : Type 0 where
  pub at : At e.n e.k st s.ctx
  pub left : e.benign.pending s.world ≤ e.bound

-- From a good state at stage `st`, `m` ends, without a fault, in a good state at stage `st'`.
pub record Turn (e : Setting) {A : Type 0} (st st' : Stage) (m : M (e.os.World) A) : Type 0 where
  pub ensures : (s : St (e.os.World)) → Good e st s → Ensures (m s) (λ _ t. Good e st' t)

module _ {e : Setting} {st st' : Stage} where
  open e use {os, n, k}

  pub Turn->>= :
      {A B : Type 0} {mid : Stage} (m : M (os.World) A) (f : A → M (os.World) B)
      → Turn e st mid m
      → ((a : A) → Turn e mid st' (f a))
      → Turn e st st' (m >>= f)
  unfolding ◌>>=◌
  Turn->>= m f p q = record {
    ensures = λ s h.
        Ensures-and_then (λ _ t. Good e st' t) (m s) f (p.ensures s h) (λ a t g. (q a).ensures t g);
  }

  pub Turn->> :
      {B : Type 0} {mid : Stage} (m : M (os.World) (Unit {0})) (r : M (os.World) B)
      → Turn e st mid m
      → Turn e mid st' r
      → Turn e st st' (m >> r)
  unfolding ◌>>◌
  Turn->> m r p q = record {
    ensures = λ s h.
        Ensures-and_then (λ _ t. Good e st' t) (m s) (λ _. r) (p.ensures s h)
          (λ a t g. q.ensures t g);
  }

  pub Turn-if :
      {A : Type 0} (b : Bool) (m r : M (os.World) A)
      → (b ≡ true → Turn e st st' m)
      → (b ≡ false → Turn e st st' r)
      → Turn e st st' (if b then m else r)
  Turn-if true m r p q = p refl
  Turn-if false m r p q = q refl

  pub Turn-option :
      {A B : Type 0} (o : Option B) (m : M (os.World) A) (f : B → M (os.World) A)
      → (o ≡ none → Turn e st st' m)
      → ((b : B) → o ≡ some b → Turn e st st' (f b))
      → Turn e st st' (elim o [ none ↦ m | some b ↦ f b ])
  Turn-option none m f p q = p refl
  Turn-option (some b) m f p q = q b refl

  pub Turn-deref :
      {A B : Type 0} (o : Option A) (f : A → M (os.World) B) (a : A)
      → o ≡ some a
      → Turn e st st' (f a)
      → Turn e st st' (deref o >>= f)
  unfolding ◌>>=◌ deref
  Turn-deref o f a is p = record { ensures = λ s h. rw is (p.ensures s h) }

  -- The context that is read is the one of the stage.
  pub Turn-get_ctx :
      {A : Type 0} (f : Ctx → M (os.World) A)
      → ((ctx : Ctx) → At n k st ctx → Turn e st st' (f ctx))
      → Turn e st st' (get_ctx >>= f)
  unfolding ◌>>=◌ get_ctx
  Turn-get_ctx f q = record { ensures = λ s h. (q s.ctx h.at).ensures s h }

  pub Turn-put_ctx : (ctx : Ctx) → At n k st' ctx → Turn e st st' (put_ctx ctx)
  unfolding put_ctx
  Turn-put_ctx ctx at = record { ensures = λ s h. record { at = at; left = h.left } }

  -- A connection of the context is there, and is as the stage says.
  pub Turn-get_conn :
      {A : Type 0} (i : ℕ) (f : Conn → M (os.World) A)
      → i < k
      → ((c : Conn) → StageOk n st i c → Turn e st st' (f c))
      → Turn e st st' (get_conn i >>= f)
  unfolding ◌>>=◌ get_conn deref
  Turn-get_conn i f lt q = record {
    ensures = λ s h.
        let (c, is) =
          get_elem?_of_lt s.ctx.connections i (omega (arith, h.at.connections_length)) in
        rw is ((q c (h.at.each i c is)).ensures s h);
  }

  pub Turn-put_conn :
      (i : ℕ) (c : Conn)
      → StageOk n st' i c
      → ((j : ℕ) (d : Conn) → j ≢ i → StageOk n st j d → StageOk n st' j d)
      → Turn e st st' (put_conn i c)
  unfolding put_conn
  Turn-put_conn i c well others = record {
    ensures = λ s h. record { at = At-set s.ctx st st' i c well others h.at; left = h.left };
  }

  pub Turn-modify_conn :
      (i : ℕ) (f : Conn → Conn)
      → i < k
      → ((c : Conn) → StageOk n st i c → StageOk n st' i (f c))
      → ((j : ℕ) (d : Conn) → j ≢ i → StageOk n st j d → StageOk n st' j d)
      → Turn e st st' (modify_conn i f)
  unfolding modify_conn
  Turn-modify_conn i f lt well others =
      Turn-get_conn i (λ c. put_conn i (f c)) lt (λ c v. Turn-put_conn i (f c) (well c v) others)

  -- The same function to a stage that says less, and below from one that says more.
  pub Turn-after :
      {A : Type 0} (mid : Stage) (m : M (os.World) A)
      → ((j : ℕ) (c : Conn) → StageOk n mid j c → StageOk n st' j c)
      → Turn e st mid m
      → Turn e st st' m
  Turn-after mid m less p = record {
    ensures = λ s h.
        Ensures-weaken (m s) (p.ensures s h)
          (λ _ t g. record { at = At-weaken t.ctx mid st' less g.at; left = g.left });
  }

module _ {e : Setting} {st st' : Stage} where
  open e use {os, n, k}

  pub Turn-before :
      {A : Type 0} (mid : Stage) (m : M (os.World) A)
      → ((j : ℕ) (c : Conn) → StageOk n st j c → StageOk n mid j c)
      → Turn e mid st' m
      → Turn e st st' m
  Turn-before mid m less p = record {
    ensures = λ s h. p.ensures s (record { at = At-weaken s.ctx st mid less h.at; left = h.left });
  }

module _ {e : Setting} {st : Stage} where
  open e use {os, n, k}

  pub Turn-pure : {A : Type 0} (a : A) → Turn e st st (pure a)
  unfolding pure
  Turn-pure a = record { ensures = λ s h. h }

  pub Turn-ask :
      {A : Type 0} (f : os.World → A × os.World)
      → ((w : os.World) → e.benign.pending (f w).1 ≤ e.benign.pending w)
      → Turn e st st (ask f)
  unfolding ask
  Turn-ask f le = record {
    ensures = λ s h. record { at = h.at; left = omega (arith, le s.world, h.left) };
  }

  pub Turn-tell :
      (f : os.World → os.World)
      → ((w : os.World) → e.benign.pending (f w) ≤ e.benign.pending w)
      → Turn e st st (tell f)
  unfolding tell
  Turn-tell f le = record {
    ensures = λ s h. record { at = h.at; left = omega (arith, le s.world, h.left) };
  }

-- The same where the first part stays at its stage: what `search` applies.
module _ {e : Setting} {st st' : Stage} where
  open e use {os}

  pub stay->>= :
      {A B : Type 0} (m : M (os.World) A) (f : A → M (os.World) B)
      → Turn e st st m
      → ((a : A) → Turn e st st' (f a))
      → Turn e st st' (m >>= f)
  stay->>= m f p q = Turn->>= m f p q

  pub stay->> :
      {B : Type 0} (m : M (os.World) (Unit {0})) (r : M (os.World) B)
      → Turn e st st m
      → Turn e st st' r
      → Turn e st st' (m >> r)
  stay->> m r p q = Turn->> m r p q

pub ruleset turn_rules = (Turn-pure, stay->>=, stay->>, Turn-if, Turn-option)
