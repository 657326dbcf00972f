-- ===== src/Lib.antt =====
-- libgilberta: a UDP transport with connections, channels and reliable delivery. An application
-- creates a context (a client or a server), calls glb_tick in a loop, sends and takes messages over
-- the channels of a connection, and polls events. glb_tick reads datagrams from the socket, acts on
-- each by its control flags, and then serves the timers of every connection: repeated handshake
-- packets, retransmission of the packet at the head of each send queue, and PING.
--
-- Which file models what:
--   Queue/Bytes      src/libgilberta/queue.h, queue.c over raw bytes, with 32-bit index arithmetic
--   Queue/Slots      the same functions over elements of one type, as the other files use them
--   Queue/Fifo       the bounded FIFO that queue.h promises
--   Crc              crc16_table and crc16_modbus_fast of src/libgilberta/glbio.c, and the generator of
--                    the table in src/test/main.cpp
--   Packet           the packet of src/libgilberta/glbio.h and its layout; glbpkg_init of gilberta.c
--   Status           the codes of include/libgilberta.h and glb_getstring
--   State            the structures of src/libgilberta/context.h, glbio.h and include/libgilberta.h
--   Os               the sockets, the clock, the allocator and the logger: parameters; Os/Benign and
--                    Os/Books, what some theorems ask of them
--   Effect           functions on a context and a world, with faults as results
--   Timer            src/libgilberta/timer.c
--   Io               glbio_send and glbio_read of src/libgilberta/glbio.c
--   Context          src/libgilberta/context.c; Context/Create has glbctx_create and glbctx_destroy
--   Tick             glb_tick of src/libgilberta/gilberta.c: Handshake, Teardown, Data and Keepalive have
--                    the branches for received packets, Timers the loop over the connections, Receive
--                    the loop that reads, and the whole; Tick/Timers/Repeat, what a retransmission
--                    leaves behind, and Tick/Keepalive/Rtt, what PING and PONG measure
--   Api              the other public functions of src/libgilberta/gilberta.c; Api/Lifetime has
--                    glb_create and glb_destroy
--   Protocol         both ends of a reliable channel and the network between them: a step relation
--                    made of the functions of Api, Tick/Data and Queue/Slots; Protocol/Network, the
--                    same with whole calls and branches on the contexts of both ends
--   Invariant        what holds of a context between the calls; Invariant/Stage, what holds inside a
--                    function, where a connection may have lost its channels or not have them yet;
--                    Invariant/Turn, one rule for each construct of Effect, and below it the functions
--                    of Context, Tick and Api as turns from one stage to another
--   View             what a function makes of one connection: rules that follow its value through the
--                    code; the SYN branch, the handshake as each end sees its connection, the
--                    repetitions, the RST branch, and the channel that carries a message
--   Session          an application that creates a context and calls the public functions in any
--                    order, and a connection whose peer is silent
--   Programs         the echo program of src/test/echo.c
--   Tests            the theorems at concrete inputs
--
-- Conventions. A function that changes the context or calls the outside is `St W → Run W A`: it ends
-- in a state with a result, or in a fault where C leaves the behaviour undefined (NULL dereferenced, an
-- access outside an array). A pointer to a connection is its index; a pointer that may be NULL is an
-- option. Integers are natural numbers, cut to their width where the code stores or computes them.
-- Received packets and answers share one buffer in glb_tick, so every handler takes and returns it.
-- The loop that reads datagrams takes fuel, because packets that glbio_read refuses do not count
-- towards its limit; running out of fuel is a result of its own.
--
-- Not modelled: the Windows branches, the default logger and the calls of printf (terminal output), the
-- test programs other than the echo program and the generator of the table, and event.c and event.h,
-- which hold no code. The
-- NULL checks of a context argument are left out, since the functions here take a context; only
-- glb_destroy has its own.
pub mod Base
pub mod Status
pub mod Crc
pub mod Queue
pub mod Packet
pub mod State
pub mod Os
pub mod Effect
pub mod Timer
pub mod Io
pub mod Context
pub mod Tick
pub mod Api
pub mod Invariant
pub mod Session
pub mod Programs
pub mod View
pub mod Tests
pub mod Protocol
