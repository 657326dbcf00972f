-- ===== src/Context/Freed.antt =====
-- glbctx_freeconchannels of src/libgilberta/context.c: what it makes of the context and of the world.
use libgilberta.Base.{
  ℕ, ◌≡◌, refl, sym, ap, ◌∙◌, List, [], ◌∷◌, Option, some, none, get_elem?, set, set-get_elem?,
}
use libgilberta.Status.{ErrorCode, success, invalid_argument}
use libgilberta.State.{Ctx, Conn, Channel, Channels}
use libgilberta.Os.{Os}
use libgilberta.Effect.{M, St, ok, pure, deref, get_conn, put_conn, tell, ◌>>=◌, ◌>>◌}
use libgilberta.Context.{queue_free, free_queues, glbctx_freeconchannels}

-- The context with connection `i` replaced.
abbrev pub with_conn : Ctx → ℕ → Conn → Ctx
with_conn ctx i c = record ctx { connections = set ctx.connections i c }

module _ (os : Os) where
  open os use {World}

  -- The world after the queues of channels are freed, in the code's order; and their array.
  abbrev pub freed_queues : List Channel → World → World
  freed_queues [] w = w
  freed_queues (ch ∷ chs) w =
      freed_queues chs (os.free (os.free w ch.s_queue.block) ch.r_queue.block)

  abbrev pub freed : Option Channels → World → World
  freed none w = w
  freed (some chans) w = os.free (freed_queues chans.items w) chans.block

  pub free_queues_lem :
      (chs : List Channel) (s : St World)
      → free_queues os chs s ≡ ok tt (record s { world = freed_queues chs s.world })
  unfolding free_queues queue_free ◌>>◌ tell pure
  free_queues_lem [] s = refl
  free_queues_lem (ch ∷ chs) s =
      free_queues_lem chs
        (record s { world = os.free (os.free s.world ch.s_queue.block) ch.r_queue.block })

  abbrev status_of : Option Channels → ErrorCode
  status_of none = invalid_argument
  status_of (some chans) = success

  pub glbctx_freeconchannels_lem :
      (s : St World) (i : ℕ) (c : Conn)
      → get_elem? s.ctx.connections i ≡ some c
      → glbctx_freeconchannels os i s
        ≡ ok (status_of c.channels) (record {
          ctx = with_conn s.ctx i (record c { channels = none });
          world = freed c.channels s.world;
        })
  unfolding glbctx_freeconchannels ◌>>=◌ ◌>>◌ get_conn put_conn deref pure tell
  glbctx_freeconchannels_lem s i c at = rw at (go c.channels refl)
    where
      go :
          (o : Option Channels)
          → c.channels ≡ o
          → (elim o as (λ _. M World ErrorCode) [
            | none ↦ pure invalid_argument
            | some chans ↦ (do
              free_queues os chans.items
              tell (λ w. os.free w chans.block)
              put_conn i (record c { channels = none })
              pure success)
          ])
              s
            ≡ ok (status_of o) (record {
              ctx = with_conn s.ctx i (record c { channels = none });
              world = freed o s.world;
            })
      go none e =
          let bare : record c { channels = none } ≡ c =
            ap (λ o. record c { channels = o }) (sym e) in
          ap (λ cs. ok invalid_argument (record s { ctx = record (s.ctx) { connections = cs } }))
            (sym (ap (set s.ctx.connections i) bare ∙ set-get_elem? s.ctx.connections i at))
      go (some chans) e = rw (free_queues_lem chans.items s) refl
