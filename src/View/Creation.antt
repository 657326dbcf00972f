-- ===== src/View/Creation.antt =====
-- The creation of channels in src/libgilberta/context.c: only the channels change, and they are empty.
use libgilberta.Base.{
  ℕ, ◌^◌, ◌<◌, ◌≤◌, arith, sym, subst, ◌≡◌, refl, List, [], ◌∷◌, ◌++◌, Option, some, none, All,
  All-append_one, take,
}
use libgilberta.Status.{ErrorCode, success, out_of_memory}
use libgilberta.Queue.Slots
use libgilberta.Queue.Slots.{Queue}
use libgilberta.Queue.Slots.Laws.{IsValid, contents}
use libgilberta.Queue.Slots.Cases.{init-IsValid, contents-init}
use libgilberta.Packet.{Pkg, pkg_size}
use libgilberta.State.{Ctx, Conn, Channel, Channels, ChanConfig}
use libgilberta.Os.{Os, LogLevel, no_memory_for_queue}
use libgilberta.Effect.{M, pure, put_conn, tell, ◌>>=◌, ◌>>◌}
use libgilberta.Context.{
  queue_init, queue_free, free_queues, create_channels, new_channel, glbctx_createconchannels,
  channel_queue_length,
}
use libgilberta.View.{
  View, Brings, Untouched, View->>=, View-brings, View-untouched, View-get_conn, View-put_conn,
  View-get_ctx, View-pure,
}
use libgilberta.View.Calls.{Brings->>=, Brings->>, Brings-pure, Untouched-tell, Untouched-ask}

-- A channel as it is created: nothing to send, nothing to take.
pub record IsEmpty (ch : Channel) : Type 0 where
  pub s_valid : IsValid ch.s_queue
  pub r_valid : IsValid ch.r_queue
  pub to_send : contents ch.s_queue ≡ []
  pub to_take : contents ch.r_queue ≡ []

-- Empty channels, if there are any.
abbrev pub AllEmpty : Option Channels → Type 0
AllEmpty none = Unit {0}
AllEmpty (some chans) = All IsEmpty chans.items

abbrev pub Created : Option (List Channel) → Type 0
Created none = Unit {0}
Created (some items) = All IsEmpty items

abbrev pub EmptyQueue : Option (Queue Pkg) → Type 0
EmptyQueue none = Unit {0}
EmptyQueue (some q) = IsValid q × (contents q ≡ [])

module _ (os : Os) where
  open os use {World}

  Brings-queue_init :
      (size room : ℕ)
      → 0 < room
      → room ≤ 2 ^ 31
      → Brings (queue_init os {A = Pkg} size room) EmptyQueue
  unfolding queue_init
  Brings-queue_init size room pos small = Brings->>= _ _ (Untouched-ask _) (λ block _. found block)
    where
      found :
          (o : Option ℕ)
          → Brings
              (elim o as (λ _. M World (Option (Queue Pkg))) [
                | none ↦ (do tell (λ w. os.log w LogLevel.error no_memory_for_queue); pure none)
                | some b ↦ pure (some (Slots.init {A = Pkg} b room))
              ])
              EmptyQueue
      found none = Brings->> _ _ (Untouched-tell _) (Brings-pure none tt)
      found (some b) = Brings-pure _ (init-IsValid b room pos small, contents-init b room)

  Untouched-queue_free : (q : Option (Queue Pkg)) → Untouched (queue_free os q)
  unfolding queue_free
  Untouched-queue_free none = Brings-pure tt tt
  Untouched-queue_free (some q) = Untouched-tell _

  pub Untouched-free_queues : (chs : List Channel) → Untouched (free_queues os chs)
  unfolding free_queues
  Untouched-free_queues [] = Brings-pure tt tt
  Untouched-free_queues (ch ∷ chs) =
      Brings->> _ _ (Untouched-queue_free (some ch.s_queue))
        (Brings->> _ _ (Untouched-queue_free (some ch.r_queue)) (Untouched-free_queues chs))

  Brings-create_channels :
      (configs : List ChanConfig) (made : List Channel)
      → All IsEmpty made
      → Brings (create_channels os configs made) Created
  unfolding create_channels
  Brings-create_channels [] made all = Brings-pure _ all
  Brings-create_channels (config ∷ configs) made all =
      let more = λ (ch : Channel) (v : IsEmpty ch).
        Brings-create_channels configs (made ++ ch ∷ []) (All-append_one IsEmpty made ch all v) in
      Brings->>= _ _ (Brings-queue_init pkg_size channel_queue_length (omega arith) (omega arith))
        (λ s sv.
          Brings->>= _ _
            (Brings-queue_init pkg_size channel_queue_length (omega arith) (omega arith))
            (λ r rv. next s r sv rv more))
    where
      stopped :
          (s r : Option (Queue Pkg))
          → Brings (do free_queues os made; queue_free os s; queue_free os r; pure none) Created
      stopped s r = Brings->> _ _ (Untouched-free_queues made) (
          Brings->> _ _ (Untouched-queue_free s)
            (Brings->> _ _ (Untouched-queue_free r) (Brings-pure none tt)))

      next :
          (s r : Option (Queue Pkg))
          → EmptyQueue s
          → EmptyQueue r
          → ((ch : Channel)
              → IsEmpty ch
              → Brings (create_channels os configs (made ++ ch ∷ [])) Created)
          → Brings
              (elim (new_channel os config s r) as (λ _. M World (Option (List Channel))) [
                | some ch ↦ create_channels os configs (made ++ ch ∷ [])
                | none ↦ (do free_queues os made; queue_free os s; queue_free os r; pure none)
              ])
              Created
      next none r sv rv more = stopped none r
      next (some s) none sv rv more = stopped (some s) none
      next (some s) (some r) sv rv more =
          more _ (record { s_valid = sv.0; r_valid = rv.0; to_send = sv.1; to_take = rv.1 })

  -- The connection afterwards differs in its channels, which are empty.
  pub View-glbctx_createconchannels :
      (i : ℕ) (c : Conn)
      → View i c
          (glbctx_createconchannels os i)
          (λ _ d. (d ≡ record c { channels = d.channels }) × AllEmpty d.channels)
  unfolding glbctx_createconchannels
  View-glbctx_createconchannels i c = View-get_ctx _ (λ ctx at.
      View-brings _ _ (Untouched-ask _) (λ block _. View-get_conn _ (in_block ctx block)))
    where
      put_back :
          (ctx : Ctx) (b : ℕ) (made : Option (List Channel))
          → Created made
          → View i c
              (elim made as (λ _. M World ErrorCode) [
                | some items ↦ (do
                  put_conn i (record c { channels = some (record { block = b; items = items }) })
                  pure success)
                | none ↦ (do
                  tell (λ w. os.free w b)
                  put_conn i (record c { channels = none })
                  pure out_of_memory)
              ])
              (λ _ d. (d ≡ record c { channels = d.channels }) × AllEmpty d.channels)
      put_back ctx b none h =
          View-untouched _ _ (Untouched-tell _) (View-put_conn _ _ (View-pure _ (refl, tt)))
      put_back ctx b (some items) h = View-put_conn _ _ (View-pure _ (refl, h))

      in_block :
          (ctx : Ctx) (block : Option ℕ)
          → View i c
              (elim block as (λ _. M World ErrorCode) [
                | none ↦ (do put_conn i (record c { channels = none }); pure out_of_memory)
                | some b ↦ (do
                  made ← create_channels os (take ctx.channel_count ctx.channel_configs) []
                  elim made [
                    | some items ↦ (do
                      put_conn i
                          (record c { channels = some (record { block = b; items = items }) })
                      pure success)
                    | none ↦ (do
                      tell (λ w. os.free w b)
                      put_conn i (record c { channels = none })
                      pure out_of_memory)
                  ])
              ])
              (λ _ d. (d ≡ record c { channels = d.channels }) × AllEmpty d.channels)
      in_block ctx none = View-put_conn _ _ (View-pure _ (refl, tt))
      in_block ctx (some b) =
          View-brings _ _ (Brings-create_channels _ [] tt) (λ made h. put_back ctx b made h)

  pub View-created :
      {B : Type 0} {Q : B → Conn → Type 0} (i : ℕ) (c : Conn) (f : ErrorCode → M World B)
      → ((status : ErrorCode) (o : Option Channels)
          → AllEmpty o
          → View i (record c { channels = o }) (f status) Q)
      → View i c (glbctx_createconchannels os i >>= f) Q
  View-created {Q = Q} i c f q =
      View->>= _ _ (View-glbctx_createconchannels i c)
        (λ status d h. subst (λ x. View i x (f status) Q) (sym h.0) (q status d.channels h.1))
