-- ===== src/Invariant.antt =====
-- The invariant of the context between the steps of the functions of src/libgilberta, and the
-- rules by which a function keeps it and does not fault.
pub mod Rules
pub mod Access
pub mod Send
pub mod Stage
pub mod Turn
pub mod Tick
pub mod Created
use libgilberta.Base.{
  ℕ, ◌≤◌, ◌<◌, ◌≡◌, ◌≢◌, List, Option, none, some, Bool, true, false, length, All,
}
use libgilberta.Queue.Slots.Laws.{IsValid}
use libgilberta.State.{
  Ctx, Conn, ConnState, closed, established, syn_sent, syn_rcvd, fin_sent, Channel, Channels,
}
use libgilberta.Effect.{M, St, Run, ok, fault, out_of_fuel}

-- The states in which the code uses the channels.
abbrev pub is_live : ConnState → Bool
is_live established = true
is_live fin_sent = true
is_live syn_sent = false
is_live syn_rcvd = false
is_live closed = false

pub record ChannelOk (c : Channel) : Type 0 where
  pub s_valid : IsValid c.s_queue
  pub r_valid : IsValid c.r_queue

-- An array of channels has an element for each configured channel.
abbrev pub ChannelsOk : ℕ → Option Channels → Type 0
ChannelsOk n none = Unit {0}
ChannelsOk n (some chans) = (length chans.items ≡ n) × All ChannelOk chans.items

pub record ConnOk (n : ℕ) (c : Conn) : Type 0 where
  pub live : is_live c.state ≡ true → c.channels ≢ none
  pub shape : ChannelsOk n c.channels

-- `n` channels for each connection, `k` connections.
pub record Inv (n k : ℕ) (ctx : Ctx) : Type 0 where
  pub channel_total : ctx.channel_count ≡ n
  pub connection_total : ctx.connection_count ≡ k
  pub connections_length : length ctx.connections ≡ k
  pub configs : length ctx.channel_configs ≡ n
  pub events : IsValid ctx.eventqueue
  pub connections_ok : All (ConnOk n) ctx.connections

-- A run that neither faults nor runs out of fuel, and ends in `Q`.
abbrev pub Ensures : {W A : Type 0} → Run W A → (A → St W → Type 0) → Type 0
Ensures (ok a s) Q = Q a s
Ensures fault Q = ⊥
Ensures out_of_fuel Q = ⊥
