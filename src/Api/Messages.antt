-- ===== src/Api/Messages.antt =====
-- glb_popdata and glb_send of src/libgilberta/gilberta.c on a channel of a connection: its two queues
-- as FIFOs of messages.
use libgilberta.Base.{
  ℕ, set, set-get_elem?, set-set, get_elem?-set_self, lt_of_get_elem?, ◌<◌, ◌≡◌, refl, sym, ap,
  List, [], ◌∷◌, Option, none, some, true, false, ◌||◌, ◌∙◌, Option-cases, arith, take, get_elem?,
  ltb, leb, ◌==◌, if◌then◌else◌, Bool-cases, inl, inr,
}
use libgilberta.Status.{ErrorCode, success, invalid_argument, queue_empty}
use libgilberta.Queue.Fifo
use libgilberta.Queue.Slots
use libgilberta.Queue.Slots.{Queue}
use libgilberta.Queue.Slots.Laws.{contents, IsValid, pop-IsValid, peek_refines}
use libgilberta.Queue.Slots.Cases.{contents-peek}
use libgilberta.Packet.{Pkg}
use libgilberta.State.{Ctx, Conn, Channel, Channels}
use libgilberta.Effect.{
  St, ok, ◌>>=◌, ◌>>◌, get_ctx, put_ctx, pure, get_conn, put_conn, deref, and_then,
}
use libgilberta.Tick.Common.{get_channel}
use libgilberta.Tick.Data.{with_channel}
use libgilberta.Invariant.{Ensures}
use libgilberta.Invariant.Rules.{Ensures_of_ok}
use libgilberta.Api.{RecvInfo, glb_popdata}

-- Connection `i` is `con`, and its channel `ch` is `c`.
pub record Reaches {W : Type 0} (s : St W) (i ch : ℕ) (con : Conn) (c : Channel) : Type 0 where
  pub chans : Channels
  pub at : get_elem? s.ctx.connections i ≡ some con
  pub has : con.channels ≡ some chans
  pub here : get_elem? chans.items ch ≡ some c

-- The message that a packet carries.
abbrev pub carried : Pkg → List ℕ
carried p = take p.header.payload_len p.payload

-- Taking a message of at most `room` bytes: one that is longer stays.
unfoldable pub receive : ℕ → List Pkg → ErrorCode × Option (List ℕ) × List Pkg
receive room [] = (queue_empty, none, [])
receive room (p ∷ ps) =
    if ltb room p.header.payload_len
    then (invalid_argument, none, p ∷ ps)
    else (success, some (carried p), ps)

-- A peek that finds nothing tells that the queue is empty.
empty_of_peek : (q : Queue Pkg) → IsValid q → Slots.peek q ≡ none → contents q ≡ []
unfolding Fifo.peek
empty_of_peek q v e = go (contents q) (sym (peek_refines q v) ∙ e)
  where
    go : (ps : List Pkg) → (Fifo.peek ps).1 ≡ none → ps ≡ []
    go [] e = refl
    go (p ∷ ps) e = ground (arith, e)

-- The context with channel `ch` of connection `i` replaced.
abbrev pub with_conn_channel : Ctx → ℕ → ℕ → Conn → Channel → Ctx
with_conn_channel ctx i ch con c = record ctx {
  connections = set ctx.connections i (with_channel ch c con);
}

-- A call of glb_popdata with its answer: of the context only the receive queue of the channel may
-- change, and the answer and what is left in the queue are those of `receive`.
pub record Takes {W : Type 0} (s t : St W) (i ch room : ℕ) (con : Conn) (c : Channel)
    (status : ErrorCode) (bytes : Option (List ℕ)) : Type 0 where
  pub queue : Queue Pkg
  pub ctx_is : t.ctx ≡ with_conn_channel s.ctx i ch con (record c { r_queue = queue })
  pub world_is : t.world ≡ s.world
  pub valid : IsValid queue
  pub answer_is : (status, bytes, contents queue) ≡ receive room (contents c.r_queue)

module _ {W : Type 0} {s : St W} {i ch : ℕ} {con : Conn} {c : Channel} where
  pub found-channel : Reaches s i ch con c → get_channel i ch s ≡ ok c s
  unfolding get_channel ◌>>=◌ get_conn deref
  found-channel r = rw (r.at, r.has, r.here) refl

  -- Writing the same channel back changes nothing.
  pub same_ctx : Reaches s i ch con c → with_conn_channel s.ctx i ch con c ≡ s.ctx
  same_ctx r =
      ap (λ x. record (s.ctx) { connections = set s.ctx.connections i x }) same_con
      ∙ ap (λ cs. record (s.ctx) { connections = cs }) (set-get_elem? s.ctx.connections i r.at)
    where
      with_same :
          (o : Option Channels)
          → o ≡ some r.chans
          → with_channel ch c (record con { channels = o }) ≡ record con { channels = o }
      with_same none e = refl
      with_same (some chans) e =
          let here : get_elem? chans.items ch ≡ some c = ground (arith, e, r.here) in
          ap (λ items. record con { channels = some (record chans { items = items }) })
            (set-get_elem? chans.items ch here)

      same_con : with_channel ch c con ≡ con
      same_con = with_same con.channels r.has

  -- The second of two writes counts.
  pub put_twice :
      (a b : Channel)
      → Reaches s i ch con c
      → with_conn_channel (with_conn_channel s.ctx i ch con a) i ch (with_channel ch a con) b
        ≡ with_conn_channel s.ctx i ch con b
  put_twice a b r =
      ap (λ cs. record (s.ctx) { connections = cs })
        (set-set s.ctx.connections i (with_channel ch a con)
          (with_channel ch b (with_channel ch a con)))
      ∙ ap (λ x. record (s.ctx) { connections = set s.ctx.connections i x }) (again con.channels)
    where
      again :
          (o : Option Channels)
          → with_channel ch b (with_channel ch a (record con { channels = o }))
            ≡ with_channel ch b (record con { channels = o })
      again none = refl
      again (some chans) =
          ap (λ items. record con { channels = some (record chans { items = items }) })
            (set-set chans.items ch a b)

  -- The channel that was put.
  pub Reaches-put :
      (c' : Channel) (w : W)
      → Reaches s i ch con c
      → Reaches
          (record { ctx = with_conn_channel s.ctx i ch con c'; world = w })
          i
          ch
          (with_channel ch c' con)
          c'
  Reaches-put c' w r = record {
    chans = record (r.chans) { items = set (r.chans).items ch c' };
    at = get_elem?-set_self s.ctx.connections i _ (lt_of_get_elem? s.ctx.connections i r.at);
    has = rw (r.has) refl;
    here = get_elem?-set_self (r.chans).items ch c' (lt_of_get_elem? (r.chans).items ch r.here);
  }

  -- glb_popdata with a buffer that has room, on a channel of a connection whose channels are there:
  -- it returns without a fault, changes at most the channel's receive queue, and its answer and what
  -- that queue holds afterwards are the first message and the rest, or GLB_ERROR_QUEUE_EMPTY, or
  -- GLB_ERROR_INVALID_ARGUMENT with the message left in place if the buffer is too small for it.
  pub glb_popdata-Takes :
      (info : RecvInfo)
      → Reaches s i ch con c
      → IsValid c.r_queue
      → ch < s.ctx.channel_count
      → 0 < info.buflen
      → let info' = record info { has_buffer = true; con = some i; channel_id = ch } in
        Ensures
          (glb_popdata (some info') s)
          (λ answer t. Takes s t i ch info.buflen con c answer.0 answer.1)
  unfolding glb_popdata receive ◌>>=◌ ◌>>◌ get_ctx put_ctx pure get_conn put_conn deref
  glb_popdata-Takes info r v inside room =
      let past : ((info.buflen == 0) || leb s.ctx.channel_count ch) ≡ false =
        ground (arith, room, inside) in
      let info' = record info { has_buffer = true; con = some i; channel_id = ch } in
      let Q = λ (answer : ErrorCode × Option (List ℕ)) (t : St W).
        Takes s t i ch info.buflen con c answer.0 answer.1 in
      elim (Option-cases (Slots.peek c.r_queue)) [
        | inl nothing ↦
            Ensures_of_ok Q (glb_popdata (some info') s) (queue_empty, none) s
              (rw (past, r.at, found-channel r) (rw (and_then, nothing) refl))
              (record {
                queue = c.r_queue;
                ctx_is = sym (same_ctx r);
                world_is = refl;
                valid = v;
                answer_is = rw (empty_of_peek c.r_queue v nothing) refl;
              })
        | inr (p, first) ↦
            let split = contents-peek v first in
            elim (Bool-cases (ltb info.buflen p.header.payload_len)) [
              | inl long ↦
                  Ensures_of_ok Q (glb_popdata (some info') s) (invalid_argument, none) s
                    (rw (past, r.at, found-channel r) (rw (and_then, first, long) refl))
                    (record {
                      queue = c.r_queue;
                      ctx_is = sym (same_ctx r);
                      world_is = refl;
                      valid = v;
                      answer_is = rw (split, long) refl;
                    })
              | inr fits ↦
                  let queue = (Slots.pop c.r_queue).2 in
                  Ensures_of_ok Q (glb_popdata (some info') s) (success, some (carried p))
                    (record s {
                      ctx = with_conn_channel s.ctx i ch con (record c { r_queue = queue });
                    })
                    (rw (past, r.at, found-channel r) (rw (and_then, first, fits) refl))
                    (record {
                      queue = queue;
                      ctx_is = refl;
                      world_is = refl;
                      valid = pop-IsValid c.r_queue v;
                      answer_is = rw (split, fits) refl;
                    })
            ]
      ]
