-- ===== src/Tests/Closings.antt =====
-- An RST for an open connection, a late call of glb_popdata, and a SYN from a new address.
use libgilberta.Base.{◌≡◌, refl, some, none, true, arith}
use libgilberta.State.{Addr}
use libgilberta.Effect.{St, fault}
use libgilberta.Context.{
  glbctx_findconn, find_index, glbctx_findconnbyaddr, glbctx_findemptyconn, glbctx_generateclientid,
}
use libgilberta.Tick.Receive.{zero_pkg}
use libgilberta.Tick.Teardown.{on_rst}
use libgilberta.Api.{RecvInfo, glb_popdata}
use libgilberta.Invariant.{Inv, Ensures}
use libgilberta.Tick.Handshake.{on_syn}
use libgilberta.Invariant.Created.{glbctx_create-Inv}
use libgilberta.View.Accept.{Accepted, on_syn-Accepted}
use libgilberta.View.{Seen}
use libgilberta.View.Closing.{Reset, on_rst-Reset, glb_popdata-on_rst}
use libgilberta.Queue.Slots.Cases.{init-IsValid}
use libgilberta.Context.Owned.{owned}
use libgilberta.Tests.Accounts.{Tally, tally, counted, with_room}
use libgilberta.Tests.Contexts.{sim, client_config}
use libgilberta.Tests.Invariants.{open_conn, open_client}
use libgilberta.Tests.Ticks.{benign_sim, start, client_config-Fits, start_created}

-- A context whose outside holds the blocks of its connection's channels.
abbrev holding : St Tally
holding = record {
  ctx = open_client;
  world = record (with_room 0) { blocks = λ a. owned open_conn.channels a };
}

open_found : glbctx_findconn open_client.connections 0 0 ≡ some 0
unfolding glbctx_findconn find_index
open_found = refl

on_rst-Reset_example :
    Ensures (on_rst tally zero_pkg holding) (λ _ t. Reset counted 0 open_conn holding t)
on_rst-Reset_example =
    on_rst-Reset tally counted 0 open_conn zero_pkg holding refl open_found
      (init-IsValid 0 4 (omega arith) (omega arith))

abbrev late : RecvInfo
late = record { has_buffer = true; con = some 0; buflen = 1024; channel_id = 0 }

glb_popdata-on_rst_example :
    Ensures (on_rst tally zero_pkg holding) (λ _ t. glb_popdata (some late) t ≡ fault)
glb_popdata-on_rst_example =
    glb_popdata-on_rst tally late 0 open_conn zero_pkg holding refl refl open_found refl refl
      (omega arith) (omega arith)

-- A SYN from port 9 to a context whose connection is closed.
abbrev newcomer : Addr
newcomer = record { sin_family = 2; sin_port = 9; s_addr = 1 }

start-Inv : Inv 1 1 start.ctx
start-Inv =
    (glbctx_create-Inv sim client_config start.world start.ctx client_config-Fits start_created).1

unknown : glbctx_findconnbyaddr start.ctx.connections newcomer ≡ none
unfolding glbctx_findconnbyaddr find_index
unknown = refl

free_slot : (glbctx_findemptyconn start.ctx.connections).1 ≡ some 0
unfolding glbctx_findemptyconn
free_slot = refl

on_syn-Accepted_example :
    Ensures
      (on_syn sim zero_pkg newcomer start)
      (λ _ t. Seen 0 (Accepted (glbctx_generateclientid start.ctx).1 zero_pkg newcomer) t)
on_syn-Accepted_example =
    on_syn-Accepted sim benign_sim 1 1 0 zero_pkg newcomer start (omega arith) (omega arith)
      start-Inv unknown free_slot
