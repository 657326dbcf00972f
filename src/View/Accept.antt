-- ===== src/View/Accept.antt =====
-- The SYN branch of glb_tick (src/libgilberta/gilberta.c): a client that is not known yet gets a slot.
use libgilberta.Base.{
  ℕ, ◌==◌, suc, ◌+◌, ◌<◌, ◌≡◌, refl, ap, ◌∙◌, subst, List, [], ◌∷◌, some, none, true, false, arith,
  get_elem?, Bool-cases, Option-cases, inl, inr,
}
use libgilberta.Base.Words.{u16}
use libgilberta.Packet.{Pkg, ConId}
use libgilberta.State.{
  Addr, Ctx, Conn, ConnState, closed, established, syn_sent, syn_rcvd, fin_sent,
}
use libgilberta.Os.{Os}
use libgilberta.Os.Benign.{Benign}
use libgilberta.Effect.{St, put_ctx, ◌>>◌}
use libgilberta.Context.{
  is_closed, is_established, emptied, glbctx_findconnbyaddr, glbctx_findemptyconn,
  glbctx_generateclientid, glbctx_generateseq,
}
use libgilberta.Tick.Common.{modify_conn}
use libgilberta.Tick.Handshake.{answer_syn, accept_syn, on_syn}
use libgilberta.Invariant.{Inv, Ensures}
use libgilberta.Invariant.Turn.Accept.{Turn-on_syn}
use libgilberta.View.{
  Ends, Ends-get_ctx, Ends-found, Ends-missing, Seen, View, View-brings, View-get_conn,
  View-put_conn, View-modify_conn, View-if, View-pure,
}
use libgilberta.View.Calls.{Untouched-glbtime_start}
use libgilberta.View.Total.{Ensures-of_Ends}

-- The slot that glbctx_findemptyconn returns, which it has reset.
record Slot (cs : List Conn) (i : ℕ) : Type 0 where
  old : Conn
  shut : is_closed old.state ≡ true
  at : get_elem? (glbctx_findemptyconn cs).0 i ≡ some (emptied old)

glbctx_findemptyconn-Slot :
    (cs : List Conn) (i : ℕ) → (glbctx_findemptyconn cs).1 ≡ some i → Slot cs i
unfolding glbctx_findemptyconn
glbctx_findemptyconn-Slot [] i e = ground arith
glbctx_findemptyconn-Slot (c ∷ cs) i e = elim (Bool-cases (is_closed c.state)) [
  | inl shut ↦
      let first : 0 ≡ i = ground (arith, e, shut) in
      subst (Slot (c ∷ cs)) first
        (record { old = c; shut = shut; at = rw (glbctx_findemptyconn, shut) refl })
  | inr used ↦ elim (Option-cases (glbctx_findemptyconn cs).1) [
    | inl missing ↦ ground (arith, e, used, missing)
    | inr (j, hit) ↦
        let next : suc j ≡ i = ground (arith, e, used, hit) in
        let v = glbctx_findemptyconn-Slot cs j hit in
        subst (Slot (c ∷ cs)) next
          (record { old = v.old; shut = v.shut; at = rw (glbctx_findemptyconn, used) v.at })
  ]
]

-- A client that has just been accepted: it waits for the ACK, with the client's number, from the
-- client's address, and with the next identifier.
pub record Accepted (id : ConId) (pkg : Pkg) (from_addr : Addr) (d : Conn) : Type 0 where
  pub state_is : d.state ≡ syn_rcvd
  pub id_is : d.conn_id ≡ id
  pub ack_is : d.ack ≡ pkg.header.seq
  pub addr_is : d.peer_addr ≡ from_addr
  pub retry_is : d.retry ≡ 0

View-answer_syn :
    (os : Os) (i : ℕ) (c : Conn) (id : ConId) (pkg : Pkg) (from_addr : Addr)
    → is_established c.state ≡ false
    → c.conn_id ≡ id
    → c.ack ≡ pkg.header.seq
    → View i c (answer_syn os i pkg from_addr) (λ _ d. Accepted id pkg from_addr d)
unfolding answer_syn
View-answer_syn os i c id pkg from_addr shut id_is ack_is = View-get_conn _ (
    View-if (is_established c.state) _ _ (λ open_. ground (arith, open_, shut))
      (λ _. View-brings _ _ (Untouched-glbtime_start os 0) (λ time _. View-put_conn _ _ (
        View-pure pkg (record {
          state_is = refl;
          id_is = id_is;
          ack_is = ack_is;
          addr_is = refl;
          retry_is = refl;
        })))))

not_established : (c : Conn) → is_closed c.state ≡ true → is_established c.state ≡ false
not_established c shut = go c.state shut
  where
    go : (st : ConnState) → is_closed st ≡ true → is_established st ≡ false
    go closed e = refl
    go established e = ground (arith, e)
    go syn_sent e = refl
    go syn_rcvd e = refl
    go fin_sent e = refl

connections-generateclientid :
    (ctx : Ctx) → (glbctx_generateclientid ctx).0.connections ≡ ctx.connections
unfolding glbctx_generateclientid
connections-generateclientid ctx = elim (Bool-cases (u16 (ctx.client_id + 1) == 0xffff)) [
  | inl last ↦ rw last refl
  | inr more ↦ rw more refl
]

-- The identifier does not depend on the connections.
glbctx_generateclientid-same :
    (ctx : Ctx) (cs : List Conn)
    → (glbctx_generateclientid (record ctx { connections = cs })).1
      ≡ (glbctx_generateclientid ctx).1
unfolding glbctx_generateclientid
glbctx_generateclientid-same ctx cs = elim (Bool-cases (u16 (ctx.client_id + 1) == 0xffff)) [
  | inl last ↦ rw last refl
  | inr more ↦ rw more refl
]

module _ (os : Os) (pkg : Pkg) (from_addr : Addr) where
  open os use {World}

  -- The part of the branch behind the search for a slot.
  accepted :
      (ctx' : Ctx) (id id' : ConId) (ctx : Ctx) (s : St World) (i : ℕ) (old : Conn)
      → id ≡ id'
      → is_closed old.state ≡ true
      → get_elem? ctx'.connections i ≡ some (emptied old)
      → Ends
          ((do
            put_ctx ctx'
            modify_conn i
                (λ con. glbctx_generateseq ctx (record con { conn_id = id }) pkg.header.seq)
            answer_syn os i pkg from_addr)
            s)
          (λ _ t. Seen i (Accepted id' pkg from_addr) t)
  unfolding ◌>>◌ put_ctx glbctx_generateseq
  accepted ctx' id id' ctx s i old same shut at =
      (View-modify_conn (λ con. glbctx_generateseq ctx (record con { conn_id = id }) pkg.header.seq)
          (answer_syn os i pkg from_addr)
          (View-answer_syn os i
            (glbctx_generateseq ctx (record (emptied old) { conn_id = id }) pkg.header.seq) id' pkg
            from_addr (not_established old shut) same refl)).ends
        (record s { ctx = ctx' }) at

  Ends-accept_syn :
      (s : St World) (i : ℕ)
      → (glbctx_findemptyconn s.ctx.connections).1 ≡ some i
      → Ends
          (accept_syn os pkg from_addr s)
          (λ _ t. Seen i (Accepted (glbctx_generateclientid s.ctx).1 pkg from_addr) t)
  unfolding accept_syn
  Ends-accept_syn s i found = Ends-get_ctx Q s _ (
      Ends-found Q s _ _ _ i found (
        accepted next.0 next.1 (glbctx_generateclientid s.ctx).1 s.ctx s i slot.old
          (glbctx_generateclientid-same s.ctx (glbctx_findemptyconn s.ctx.connections).0) slot.shut
          (ap (λ cs. get_elem? cs i)
              (connections-generateclientid
                (record (s.ctx) { connections = (glbctx_findemptyconn s.ctx.connections).0 }))
            ∙ slot.at)))
    where
      Q : Pkg → St World → Type 0
      Q _ t = Seen i (Accepted (glbctx_generateclientid s.ctx).1 pkg from_addr) t

      slot : Slot s.ctx.connections i
      slot = glbctx_findemptyconn-Slot s.ctx.connections i found

      next : Ctx × ConId
      next =
          glbctx_generateclientid
            (record (s.ctx) { connections = (glbctx_findemptyconn s.ctx.connections).0 })

-- On a context with the invariant, and with memory, a SYN from an address that no connection has is
-- handled without a fault. If a connection is closed, the first such one afterwards waits in SYN_RCVD
-- for the ACK, with the sender's address, the number of the SYN as the one to acknowledge, and the
-- next identifier.
pub on_syn-Accepted :
    (os : Os) (benign : Benign os) (n k i : ℕ) (pkg : Pkg) (from_addr : Addr) (s : St (Os.World os))
    → 0 < n
    → 0 < k
    → Inv n k s.ctx
    → glbctx_findconnbyaddr s.ctx.connections from_addr ≡ none
    → (glbctx_findemptyconn s.ctx.connections).1 ≡ some i
    → Ensures
        (on_syn os pkg from_addr s)
        (λ _ t. Seen i (Accepted (glbctx_generateclientid s.ctx).1 pkg from_addr) t)
unfolding on_syn
on_syn-Accepted os benign n k i pkg from_addr s has_channels has_connections v unknown free_slot =
    Ensures-of_Ends os benign has_channels has_connections Q (on_syn os pkg from_addr) s
      (λ bound. Turn-on_syn pkg from_addr) v
      (Ends-get_ctx Q s _
        (Ends-missing Q s _ _ _ unknown (Ends-accept_syn os pkg from_addr s i free_slot)))
  where
    Q : Pkg → St (Os.World os) → Type 0
    Q _ t = Seen i (Accepted (glbctx_generateclientid s.ctx).1 pkg from_addr) t
