-- ===== src/View/Calls.antt =====
-- The functions of src/libgilberta that leave the connections alone, and the numbers written to channels.
use libgilberta.Base.{
  ℕ, ◌==◌, ◌+◌, ◌≡◌, refl, ◌∙◌, Option, some, none, Bool-cases, inl, inr, get_elem?,
}
use libgilberta.Status.{ErrorCode}
use libgilberta.Packet.{Pkg, header_size}
use libgilberta.State.{Addr, Conn, Channels, Event}
use libgilberta.Os.{Os}
use libgilberta.Effect.{
  M, St, Run, ok, fault, out_of_fuel, and_then, pure, get_ctx, put_ctx, deref, get_conn, put_conn,
  ask, tell, ◌>>=◌, ◌>>◌,
}
use libgilberta.Timer.{timer_get_current_ms, glbtime_start, glbtime_isexpired}
use libgilberta.Io.{glbio_send, with_checksum, wire_bytes, all_sent}
use libgilberta.Context.{glbctx_writeack, acked}
use libgilberta.Tick.Common.{push_event}
use libgilberta.View.{Ends, Ends-and_then, Seen, View, Brings, Untouched, View-put_conn}

module _ {W A B : Type 0} {R : B → Type 0} where
  pub Brings->>= :
      {P : A → Type 0} (m : M W A) (f : A → M W B)
      → Brings m P
      → ((a : A) → P a → Brings (f a) R)
      → Brings (m >>= f) R
  unfolding ◌>>=◌
  Brings->>= m f p q = record {
    ends = λ s.
        Ends-and_then (λ b t. (t.ctx.connections ≡ s.ctx.connections) × R b) (m s) f (p.ends s)
          (λ a t h. again s t h.0 (f a t) ((q a h.1).ends t));
  }
    where
      again :
          (s t : St W)
          → t.ctx.connections ≡ s.ctx.connections
          → (r : Run W B) → Ends r (λ b u. (u.ctx.connections ≡ t.ctx.connections) × R b)
          → Ends r (λ b u. (u.ctx.connections ≡ s.ctx.connections) × R b)
      again s t same (ok b u) h = (h.0 ∙ same, h.1)
      again s t same fault h = tt
      again s t same out_of_fuel h = tt

module _ {W B : Type 0} {R : B → Type 0} where
  pub Brings->> : (m : M W (Unit {0})) (r : M W B) → Untouched m → Brings r R → Brings (m >> r) R
  unfolding ◌>>◌ ◌>>=◌
  Brings->> m r p q = record { ends = (Brings->>= m (λ _. r) p (λ _ _. q)).ends }

module _ {W : Type 0} where
  pub Brings-pure : {A : Type 0} {R : A → Type 0} (a : A) → R a → Brings (pure {W = W} a) R
  unfolding pure
  Brings-pure a r = record { ends = λ s. (refl, r) }

  pub Untouched-tell : (f : W → W) → Untouched (tell f)
  unfolding tell
  Untouched-tell f = record { ends = λ s. (refl, tt) }

  pub Untouched-ask : {A : Type 0} (f : W → A × W) → Untouched (ask f)
  unfolding ask
  Untouched-ask f = record { ends = λ s. (refl, tt) }

  pub Untouched-push_event : (event : Event) → Untouched (push_event {W = W} event)
  unfolding push_event ◌>>=◌ get_ctx put_ctx
  Untouched-push_event event = record { ends = λ s. (refl, tt) }

-- What `glbio_send` gives back is the packet with its checksum.
abbrev pub Sealed : Pkg → ErrorCode × Pkg → Type 0
Sealed pkg answer = answer.1 ≡ with_checksum pkg

module _ (os : Os) where
  open os use {World}

  pub Untouched-glbtime_start : (interval : ℕ) → Untouched (glbtime_start os interval)
  unfolding glbtime_start timer_get_current_ms ◌>>=◌ ask pure
  Untouched-glbtime_start interval = record { ends = λ s. (refl, tt) }

  pub Untouched-glbtime_isexpired : (ts : ℕ) → Untouched (glbtime_isexpired os ts)
  unfolding glbtime_isexpired timer_get_current_ms ◌>>=◌ ask pure
  Untouched-glbtime_isexpired ts = record {
    ends = λ s. elim (Bool-cases (ts == 0)) [
      | inl off ↦ rw off (refl, tt)
      | inr on_ ↦ rw on_ (refl, tt)
    ];
  }

  pub Brings-glbio_send :
      (pkg : Pkg) (to_addr : Addr) → Brings (glbio_send os pkg to_addr) (Sealed pkg)
  unfolding glbio_send ◌>>=◌ ◌>>◌ ask get_ctx put_ctx pure
  Brings-glbio_send pkg to_addr = record {
    ends = λ s.
        elim (Bool-cases (
          all_sent (os.sendto s.world (wire_bytes (with_checksum pkg)) to_addr).0
            (pkg.header.payload_len + header_size))) [
              | inl sent ↦ rw sent (refl, refl)
              | inr unsent ↦ rw unsent (refl, refl)
            ];
  }

  -- Channels that are NULL end the run; those that are there get the numbers.
  pub View-glbctx_writeack :
      {B : Type 0} {Q : B → Conn → Type 0} (i ack : ℕ) (c : Conn) (r : M World B)
      → ((chans : Channels)
          → c.channels ≡ some chans
          → View i (record c { channels = some (acked c ack chans) }) r Q)
      → View i c (glbctx_writeack os i ack >> r) Q
  unfolding glbctx_writeack ◌>>=◌ ◌>>◌ get_conn put_conn deref
  View-glbctx_writeack {Q = Q} i ack c r q = record {
    ends = λ s at. rw at (written s at c.channels refl);
  }
    where
      written :
          (s : St World)
          → get_elem? s.ctx.connections i ≡ some c
          → (o : Option Channels) → c.channels ≡ o
          → Ends
              (and_then
                (and_then
                  (deref o s)
                  (λ chans. put_conn i (record c { channels = some (acked c ack chans) })))
                (λ _. r))
              (λ b t. Seen i (Q b) t)
      written s at none has = tt
      written s at (some chans) has =
          (View-put_conn (record c { channels = some (acked c ack chans) }) r (q chans has)).ends s
            at
