-- ===== src/Invariant/Turn/Channels.antt =====
-- Creation, use and release of a connection's channels (src/libgilberta/context.c) as turns. With
-- memory for every request, they are all created.
use libgilberta.Base.{
  ℕ, suc, ◌+◌, ◌*◌, ◌^◌, ◌≤◌, ◌<◌, ◌≡◌, ◌≢◌, refl, ap, ◌∙◌, List, [], ◌∷◌, ◌++◌, Option, some, none,
  arith, length, take, map, All, length-append, take-length, All-append_one,
}
use libgilberta.Status.{success, out_of_memory}
use libgilberta.Queue.Slots
use libgilberta.Queue.Slots.{Queue}
use libgilberta.Queue.Slots.Laws.{IsValid}
use libgilberta.Queue.Slots.Cases.{init-IsValid}
use libgilberta.Packet.{Pkg, pkg_size}
use libgilberta.State.{Ctx, Conn, Channel, Channels, ChanConfig}
use libgilberta.Os.{LogLevel, no_memory_for_queue}
use libgilberta.Effect.{pure, put_conn, tell, ◌>>=◌, ◌>>◌}
use libgilberta.Context.{
  queue_init, queue_free, free_queues, create_channels, new_channel, glbctx_createconchannels,
  acked, sizeof_queue, sizeof_channel, channel_queue_length,
}
use libgilberta.Invariant.{ChannelOk, ChannelsOk}
use libgilberta.Invariant.Stage.{Stage, ready, opening, StageOk, At}
use libgilberta.Invariant.Turn.{
  Setting, Turn, Turn->>, Turn-get_ctx, Turn-get_conn, Turn-put_conn, Turn-pure,
}
use libgilberta.Invariant.Turn.Yields.{
  Given, Yields, Turn-Yields, Yields->>=, Yields-imp, Yields-pure, Yields-malloc,
}

-- The channels after those of some configurations were added to others.
abbrev Created : List ChanConfig → List Channel → List Channel → Type 0
Created configs made items = (length items ≡ length made + length configs) × All ChannelOk items

Created-shift :
    (config : ChanConfig) (configs : List ChanConfig) (made : List Channel) (ch : Channel)
    (o : Option (List Channel))
    → Given (Created configs (made ++ ch ∷ [])) o
    → Given (Created (config ∷ configs) made) o
Created-shift config configs made ch none h = h
Created-shift config configs made ch (some items) h =
    (omega (arith, h.0, length-append made (ch ∷ [])), h.1)

module _ {e : Setting} {st : Stage} where
  open e use {os, n, k, benign}

  Yields-queue_init :
      (size room : ℕ)
      → 0 < room
      → room ≤ 2 ^ 31
      → Yields e st (queue_init os {A = Pkg} size room) (Given (IsValid {A = Pkg}))
  unfolding queue_init
  Yields-queue_init size room pos small =
      Yields->>= _ _ (Yields-malloc (sizeof_queue + room * size)) found
    where
      found :
          (o : Option ℕ)
          → Given (λ _. Unit {0}) o
          → Yields e st
              (elim o [
                | none ↦ (do tell (λ w. os.log w LogLevel.error no_memory_for_queue); pure none)
                | some b ↦ pure (some (Slots.init {A = Pkg} b room))
              ])
              (Given (IsValid {A = Pkg}))
      found none h = elim h [ ]
      found (some b) h = Yields-pure _ (init-IsValid b room pos small)

  Yields-create_channels :
      (configs : List ChanConfig) (made : List Channel)
      → All ChannelOk made
      → Yields e st (create_channels os configs made) (Given (Created configs made))
  unfolding create_channels
  Yields-create_channels [] made all = Yields-pure _ (omega arith, all)
  Yields-create_channels (config ∷ configs) made all =
      let more = λ (ch : Channel) (v : ChannelOk ch).
        Yields-create_channels configs (made ++ ch ∷ []) (All-append_one ChannelOk made ch all v) in
      Yields->>= _ _ (Yields-queue_init pkg_size channel_queue_length (omega arith) (omega arith))
        (λ s sv.
          Yields->>= _ _
            (Yields-queue_init pkg_size channel_queue_length (omega arith) (omega arith))
            (λ r rv. next s r sv rv more))
    where
      next :
          (s r : Option (Queue Pkg))
          → Given (IsValid {A = Pkg}) s
          → Given (IsValid {A = Pkg}) r
          → ((ch : Channel)
              → ChannelOk ch
              → Yields e st
                  (create_channels os configs (made ++ ch ∷ []))
                  (Given (Created configs (made ++ ch ∷ []))))
          → Yields e st
              (elim (new_channel os config s r) [
                | some ch ↦ create_channels os configs (made ++ ch ∷ [])
                | none ↦ (do free_queues os made; queue_free os s; queue_free os r; pure none)
              ])
              (Given (Created (config ∷ configs) made))
      next none r sv rv more = elim sv [ ]
      next (some s) none sv rv more = elim rv [ ]
      next (some s) (some r) sv rv more =
          Yields-imp _ (more _ (record { s_valid = sv; r_valid = rv }))
            (Created-shift config configs made _)

-- Numbers of a channel that change leave it well formed.
pub acked-ChannelsOk :
    {n : ℕ} (con : Conn) (ack : ℕ) (chans : Channels)
    → ChannelsOk n (some chans)
    → ChannelsOk n (some (acked con ack chans))
acked-ChannelsOk con ack chans h = (acked-length chans.items ∙ h.0, acked-all chans.items h.1)
  where
    acked-length :
        (chs : List Channel)
        → length (map (λ (ch : Channel). record ch { seq = con.seq; ack = ack }) chs) ≡ length chs
    acked-length [] = refl
    acked-length (ch ∷ chs) = ap suc (acked-length chs)

    acked-all :
        (chs : List Channel)
        → All ChannelOk chs
        → All ChannelOk (map (λ (ch : Channel). record ch { seq = con.seq; ack = ack }) chs)
    acked-all [] all = tt
    acked-all (ch ∷ chs) all =
        (record { s_valid = (all.0).s_valid; r_valid = (all.0).r_valid }, acked-all chs all.1)

pub some≢none : {chans : Channels} → ◌≢◌ {A = Option Channels} (some chans) none
some≢none e = ground arith

module _ {e : Setting} where
  open e use {os, n, k, benign}

  -- The channels are created for a connection of any state, which then has them.
  pub Turn-glbctx_createconchannels :
      (i : ℕ) → i < k → Turn e (opening i) (ready i) (glbctx_createconchannels os i)
  unfolding glbctx_createconchannels
  Turn-glbctx_createconchannels i lt = Turn-get_ctx _ (λ ctx at.
      Turn-Yields _ _ (Yields-malloc (sizeof_channel * ctx.channel_count))
        (λ block there. Turn-get_conn i _ lt (λ con shape. in_block ctx at con shape block there)))
    where
      all_made :
          (ctx : Ctx)
          → At n k (opening i) ctx
          → length (take ctx.channel_count ctx.channel_configs) ≡ n
      all_made ctx at =
          ap length (
            take-length ctx.channel_configs ctx.channel_count
              (omega (arith, at.configs, at.channel_total)))
          ∙ at.configs

      put_back :
          (ctx : Ctx) (b : ℕ) (con : Conn) (made : Option (List Channel))
          → At n k (opening i) ctx
          → Given (Created (take ctx.channel_count ctx.channel_configs) []) made
          → Turn e (opening i) (ready i) (elim made [
            | some items ↦ (do
              put_conn i (record con { channels = some (record { block = b; items = items }) })
              pure success)
            | none ↦ (do
              tell (λ w. os.free w b)
              put_conn i (record con { channels = none })
              pure out_of_memory)
          ])
      put_back ctx b con none at h = elim h [ ]
      put_back ctx b con (some items) at h =
          let shape : ChannelsOk n (some (record { block = b; items = items })) =
            (omega (arith, h.0, all_made ctx at), h.1) in
          Turn->> _ _
            (Turn-put_conn i _ (record { live = λ _. some≢none; shape = shape }, λ _. some≢none)
              (λ j d other v. (v.1 other, λ same. absurd (other same))))
            (Turn-pure success)

      in_block :
          (ctx : Ctx)
          → At n k (opening i) ctx
          → (con : Conn) → StageOk n (opening i) i con
          → (block : Option ℕ) → Given (λ _. Unit {0}) block
          → Turn e (opening i) (ready i) (elim block [
            | none ↦ (do put_conn i (record con { channels = none }); pure out_of_memory)
            | some b ↦ (do
              made ← create_channels os (take ctx.channel_count ctx.channel_configs) []
              elim made [
                | some items ↦ (do
                  put_conn i (record con { channels = some (record { block = b; items = items }) })
                  pure success)
                | none ↦ (do
                  tell (λ w. os.free w b)
                  put_conn i (record con { channels = none })
                  pure out_of_memory)
              ])
          ])
      in_block ctx at con shape none there = elim there [ ]
      in_block ctx at con shape (some b) there =
          Turn-Yields _ _
            (Yields-create_channels (take ctx.channel_count ctx.channel_configs) [] tt)
            (λ made h. put_back ctx b con made at h)
