-- ===== src/Invariant/Turn/Accept.antt =====
-- The SYN branch of glb_tick (src/libgilberta/gilberta.c) as a turn.
use libgilberta.Base.{
  ℕ, suc, ◌+◌, ◌==◌, ◌<◌, ◌≡◌, refl, ap, ◌∙◌, List, [], ◌∷◌, some, true, false, arith, Bool-cases,
  Option-cases, inl, inr, length, All,
}
use libgilberta.Base.Words.{u16}
use libgilberta.Packet.{Pkg}
use libgilberta.State.{
  Addr, Ctx, Conn, ConnState, closed, established, syn_sent, syn_rcvd, fin_sent,
}
use libgilberta.Context.{
  glbctx_findconnbyaddr, glbctx_findemptyconn, emptied, is_closed, glbctx_generateseq,
  glbctx_generateclientid,
}
use libgilberta.Tick.Common.{modify_conn}
use libgilberta.Tick.Handshake.{answer_syn, accept_syn, on_syn}
use libgilberta.Invariant.{ConnOk, is_live}
use libgilberta.Invariant.Stage.{plain, At, At-of_Inv, Inv-of_At}
use libgilberta.Invariant.Turn.{
  Setting, Turn, Turn->>, Turn-option, Turn-get_ctx, Turn-put_ctx, Turn-get_conn, turn_rules,
}
use libgilberta.Invariant.Turn.Calls.{Turn-glbtime_start, Turn-glbio_send}
use libgilberta.Invariant.Turn.Writes.{found_lt, ConnOk-of_dead, Turn-put_dead, Turn-modify_same}

ConnOk-emptied : (n : ℕ) (c : Conn) → is_closed c.state ≡ true → ConnOk n (emptied c)
ConnOk-emptied n c shut = ConnOk-of_dead (emptied c) (dead c.state shut) tt
  where
    dead : (s : ConnState) → is_closed s ≡ true → is_live s ≡ false
    dead closed e = refl
    dead established e = ground arith
    dead syn_sent e = ground arith
    dead syn_rcvd e = ground arith
    dead fin_sent e = ground arith

glbctx_findemptyconn-All :
    (n : ℕ) (cs : List Conn) → All (ConnOk n) cs → All (ConnOk n) (glbctx_findemptyconn cs).0
unfolding glbctx_findemptyconn
glbctx_findemptyconn-All n [] all = tt
glbctx_findemptyconn-All n (c ∷ cs) all = elim (Bool-cases (is_closed c.state)) [
  | inl shut ↦ rw shut (ConnOk-emptied n c shut, all.1)
  | inr used ↦ rw used (all.0, glbctx_findemptyconn-All n cs all.1)
]

length-glbctx_findemptyconn : (cs : List Conn) → length (glbctx_findemptyconn cs).0 ≡ length cs
unfolding glbctx_findemptyconn
length-glbctx_findemptyconn [] = refl
length-glbctx_findemptyconn (c ∷ cs) = elim (Bool-cases (is_closed c.state)) [
  | inl shut ↦ rw shut refl
  | inr used ↦ rw used (ap suc (length-glbctx_findemptyconn cs))
]

glbctx_findemptyconn-lt :
    (cs : List Conn) (i : ℕ) → (glbctx_findemptyconn cs).1 ≡ some i → i < length cs
unfolding glbctx_findemptyconn
glbctx_findemptyconn-lt [] i e = ground arith
glbctx_findemptyconn-lt (c ∷ cs) i e = elim (Option-cases (glbctx_findemptyconn cs).1) [
  | inl missing ↦ ground arith
  | inr (j, hit) ↦ ground (arith, glbctx_findemptyconn-lt cs j hit)
]

-- The context of glbctx_generateclientid differs in its counter.
At-accepting :
    {n k : ℕ} (ctx : Ctx)
    → At n k plain ctx
    → At n k plain
        (glbctx_generateclientid
          (record ctx { connections = (glbctx_findemptyconn ctx.connections).0 })).0
unfolding glbctx_generateclientid
At-accepting {n} {k} ctx at = elim (Bool-cases (u16 (ctx.client_id + 1) == 0xffff)) [
  | inl last ↦ rw last (with_id 0)
  | inr more ↦ rw more (with_id (u16 (ctx.client_id + 1)))
]
  where
    with_id :
        (id : ℕ)
        → At n k plain
            (record ctx { connections = (glbctx_findemptyconn ctx.connections).0; client_id = id })
    with_id id =
        let v = Inv-of_At ctx at in
        At-of_Inv
          (record ctx { connections = (glbctx_findemptyconn ctx.connections).0; client_id = id })
          (record {
            channel_total = v.channel_total;
            connection_total = v.connection_total;
            connections_length = length-glbctx_findemptyconn ctx.connections ∙ v.connections_length;
            configs = v.configs;
            events = v.events;
            connections_ok = glbctx_findemptyconn-All n ctx.connections v.connections_ok;
          })

module _ {e : Setting} where
  open e use {os, n, k}

  Turn-answer_syn :
      (i : ℕ) (pkg : Pkg) (from_addr : Addr)
      → i < k
      → Turn e plain plain (answer_syn os i pkg from_addr)
  unfolding answer_syn
  Turn-answer_syn i pkg from_addr lt =
      Turn-get_conn i _ lt
        (λ con v. search (turn_rules, Turn-glbtime_start, Turn-put_dead, v.shape))

  Turn-accept_syn :
      (pkg : Pkg) (from_addr : Addr) → Turn e plain plain (accept_syn os pkg from_addr)
  unfolding accept_syn glbctx_generateseq
  Turn-accept_syn pkg from_addr = Turn-get_ctx _ (λ ctx at.
      Turn-option (glbctx_findemptyconn ctx.connections).1 _ _
        (λ _. search (turn_rules, Turn-glbio_send))
        (λ i hit.
          let lt : i < k =
            omega (arith, glbctx_findemptyconn-lt ctx.connections i hit, at.connections_length) in
          Turn->> _ _ (Turn-put_ctx _ (At-accepting ctx at))
            (Turn->> _ _ (generated ctx i pkg lt) (Turn-answer_syn i pkg from_addr lt))))
    where
      generated :
          (ctx : Ctx) (i : ℕ) (pkg : Pkg)
          → i < k
          → Turn e plain plain (
              modify_conn i (λ con.
                glbctx_generateseq ctx
                  (record con {
                    conn_id =
                        (glbctx_generateclientid (record ctx {
                          connections = (glbctx_findemptyconn ctx.connections).0;
                        })).1;
                  })
                  pkg.header.seq))
      generated ctx i pkg lt = Turn-modify_same i _ lt (λ c. refl) (λ c. refl)

  pub Turn-on_syn : (pkg : Pkg) (from_addr : Addr) → Turn e plain plain (on_syn os pkg from_addr)
  unfolding on_syn glbctx_findconnbyaddr
  Turn-on_syn pkg from_addr = Turn-get_ctx _ (λ ctx at.
      Turn-option _ _ _ (λ _. Turn-accept_syn pkg from_addr)
        (λ i hit. Turn-answer_syn i pkg from_addr (found_lt ctx _ i at hit)))
