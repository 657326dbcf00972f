-- ===== src/Context/Owned/RoundTrip.antt =====
-- glbctx_createconchannels of src/libgilberta/context.c allocates all or nothing, and what it allocates
-- glbctx_freeconchannels gives back.
use libgilberta.Base.{
  ℕ, ◌+◌, ◌*◌, ◌≡◌, refl, sym, ap, ◌∙◌, subst, List, [], Option, some, none, arith, length, take,
  get_elem?, set-set, get_elem?-set_self, lt_of_get_elem?, Option-cases, inl, inr,
}
use libgilberta.Status.{ErrorCode, success, out_of_memory}
use libgilberta.State.{Ctx, Conn, Channel, Channels}
use libgilberta.Os.{Os}
use libgilberta.Os.Books.{Books, one_at, one_of}
use libgilberta.Effect.{
  M, St, and_then, pure, get_ctx, deref, get_conn, put_conn, ask, tell, ◌>>=◌, ◌>>◌,
}
use libgilberta.Context.{
  create_channels, glbctx_createconchannels, glbctx_freeconchannels, sizeof_channel,
}
use libgilberta.Context.Freed.{glbctx_freeconchannels_lem, with_conn}
use libgilberta.Invariant.{Ensures}
use libgilberta.Invariant.Rules.{Ensures-and_then, Ensures-weaken, Ensures_of_ok}
use libgilberta.Context.Owned.{owned, held-freed, Makes, Makes-create_all}

-- The outcome of a creation of channels for connection `i`, which was `c`: either it succeeds, with a
-- channel for each configuration, or there is no memory and no channels; and the blocks that were
-- allocated are those of the channels. Nothing else of the context changes.
abbrev pub Answers : ErrorCode → ℕ → Option Channels → Type 0
Answers status count none = status ≡ out_of_memory
Answers status count (some chans) = (status ≡ success) × (length chans.items ≡ count)

pub record Allocated {os : Os} (books : Books os) (s t : St (Os.World os)) (i : ℕ) (c : Conn)
    (status : ErrorCode) : Type 0 where
  pub chans : Option Channels
  pub ctx_is : t.ctx ≡ with_conn s.ctx i (record c { channels = chans })
  pub answers : Answers status (length (take s.ctx.channel_count s.ctx.channel_configs)) chans
  pub blocks : (a : ℕ) → books.held t.world a ≡ books.held s.world a + owned chans a

module _ {os : Os} (books : Books os) (s : St (Os.World os)) (i : ℕ) (c : Conn)
    (at : get_elem? s.ctx.connections i ≡ some c) where
  open os use {World}
  open books use {held}

  abbrev bytes : ℕ
  bytes = sizeof_channel * s.ctx.channel_count

  abbrev later : St World
  later = record s { world = (os.malloc s.world bytes).1 }

  -- The end of the creation, with the array at `b`.
  abbrev finish : ℕ → Option (List Channel) → M World ErrorCode
  finish b o = elim o [
    | some items ↦ (do
      put_conn i (record c { channels = some (record { block = b; items = items }) })
      pure success)
    | none ↦ (do
      tell (λ w. os.free w b)
      put_conn i (record c { channels = none })
      pure out_of_memory)
  ]

  stored :
      (b : ℕ) (o : Option (List Channel)) (t : St World)
      → (os.malloc s.world bytes).0 ≡ some b
      → Makes books later
          (λ a. held s.world a + one_at b a)
          (length (take s.ctx.channel_count s.ctx.channel_configs))
          o
          t
      → Ensures (finish b o t) (λ status u. Allocated books s u i c status)
  unfolding ◌>>◌ put_conn pure tell
  stored b none t there h = record {
    chans = none;
    ctx_is = ap (λ x. with_conn x i (record c { channels = none })) h.ctx_is;
    answers = refl;
    blocks = λ a. omega (arith, (books.on_free t.world b a).0, h.blocks a);
  }
  stored b (some items) t there h = record {
    chans = some (record { block = b; items = items });
    ctx_is =
        ap (λ x. with_conn x i (record c { channels = some (record { block = b; items = items }) }))
          (h.0).ctx_is;
    answers = (refl, h.1);
    blocks = λ a. omega (arith, (h.0).blocks a);
  }

  Allocated-glbctx_createconchannels :
      Ensures (glbctx_createconchannels os i s) (λ status t. Allocated books s t i c status)
  unfolding glbctx_createconchannels ◌>>=◌ ◌>>◌ get_ctx get_conn put_conn deref ask pure
  Allocated-glbctx_createconchannels = elim (Option-cases (os.malloc s.world bytes).0) [
    | inl failed ↦
        Ensures_of_ok (λ status t. Allocated books s t i c status) (glbctx_createconchannels os i s)
          out_of_memory (record later { ctx = with_conn s.ctx i (record c { channels = none }) })
          (rw (failed, at) refl)
          (record {
            chans = none;
            ctx_is = refl;
            answers = refl;
            blocks = λ a.
                omega (arith, (books.on_malloc s.world bytes a).0, ap (λ o. one_of o a) failed);
          })
    | inr (b, there) ↦
        let configs = take s.ctx.channel_count s.ctx.channel_configs in
        let run : glbctx_createconchannels os i s
            ≡ and_then (create_channels os configs [] later) (finish b) =
          rw (there, at) refl in
        subst (λ r. Ensures r (λ status t. Allocated books s t i c status)) (sym run)
          (Ensures-and_then
            {P = Makes books later (λ a. held s.world a + one_at b a) (length configs)}
            (λ status t. Allocated books s t i c status) _ (finish b)
            (Makes-create_all books configs later (λ a. held s.world a + one_at b a)
              (λ a. omega (arith, (books.on_malloc s.world bytes a).0, ap (λ o. one_of o a) there)))
            (λ o t h. stored b o t there h))
  ]

-- On a connection of the context, glbctx_createconchannels returns without a fault. Either it returns
-- GLB_SUCCESS and the connection has a channel for each configuration, or GLB_ERROR_OUT_OF_MEMORY and
-- the connection has none; the blocks that it leaves allocated are the array and the queues of the
-- channels, so none when it fails, wherever in the loop an allocation failed. glbctx_freeconchannels
-- then leaves the connection without channels and every block as before the creation.
pub createconchannels-freeconchannels :
    (os : Os) (books : Books os) (s : St (Os.World os)) (i : ℕ) (c : Conn)
    → get_elem? s.ctx.connections i ≡ some c
    → Ensures (glbctx_createconchannels os i s) (λ status t.
      Allocated books s t i c status
      × Ensures (glbctx_freeconchannels os i t) (λ _ u.
        (u.ctx ≡ with_conn s.ctx i (record c { channels = none }))
        × ((a : ℕ) → books.held u.world a ≡ books.held s.world a)))
createconchannels-freeconchannels os books s i c at =
    Ensures-weaken {P = λ status t. Allocated books s t i c status}
      (glbctx_createconchannels os i s) (Allocated-glbctx_createconchannels books s i c at)
      (λ status t h. (h, given_back status t h))
  where
    given_back :
        (status : ErrorCode) (t : St (Os.World os))
        → Allocated books s t i c status
        → Ensures (glbctx_freeconchannels os i t) (λ _ u.
          (u.ctx ≡ with_conn s.ctx i (record c { channels = none }))
          × ((a : ℕ) → books.held u.world a ≡ books.held s.world a))
    given_back status t h =
        let d : Conn = record c { channels = h.chans } in
        let bare : Conn = record c { channels = none } in
        let here : get_elem? t.ctx.connections i ≡ some d =
          ap (λ (x : Ctx). get_elem? x.connections i) h.ctx_is
          ∙ get_elem?-set_self s.ctx.connections i d (lt_of_get_elem? s.ctx.connections i at) in
        Ensures_of_ok
          (λ _ u.
            (u.ctx ≡ with_conn s.ctx i bare)
            × ((a : ℕ) → books.held u.world a ≡ books.held s.world a))
          (glbctx_freeconchannels os i t) _ _ (glbctx_freeconchannels_lem os t i d here)
          (
            ap (λ x. with_conn x i bare) h.ctx_is
                ∙ ap (λ cs. record (s.ctx) { connections = cs })
                    (set-set s.ctx.connections i d bare),
            λ a. omega (arith, held-freed books h.chans t.world a, h.blocks a),
          )
