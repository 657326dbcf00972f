-- ===== src/Invariant/Rules.antt =====
-- Runs that end well, and a write of one connection under the invariant.
use libgilberta.Base.{ℕ, ◌≡◌, ◌∙◌, subst, sym, set, All-set, length-set}
use libgilberta.State.{Ctx, Conn}
use libgilberta.Effect.{M, St, Run, ok, fault, out_of_fuel, and_then}
use libgilberta.Invariant.{ConnOk, Inv, Ensures}

pub Ensures-and_then :
    {W A B : Type 0} {P : A → St W → Type 0} (Q : B → St W → Type 0) (r : Run W A) (f : A → M W B)
    → Ensures r P
    → ((a : A) (t : St W) → P a t → Ensures (f a t) Q)
    → Ensures (and_then r f) Q
Ensures-and_then Q (ok a t) f p k = k a t p
Ensures-and_then Q fault f p k = p
Ensures-and_then Q out_of_fuel f p k = p

pub Ensures_of_ok :
    {W A : Type 0} (Q : A → St W → Type 0) (r : Run W A) (a : A) (t : St W)
    → r ≡ ok a t
    → Q a t
    → Ensures r Q
Ensures_of_ok Q r a t e q = subst (λ x. Ensures x Q) (sym e) q

pub Ensures-weaken :
    {W A : Type 0} {P Q : A → St W → Type 0} (r : Run W A)
    → Ensures r P
    → ((a : A) (t : St W) → P a t → Q a t)
    → Ensures r Q
Ensures-weaken (ok a t) p f = f a t p
Ensures-weaken fault p f = p
Ensures-weaken out_of_fuel p f = p

-- A write of a connection that is well formed.
pub Inv-set :
    {n k : ℕ} (ctx : Ctx) (i : ℕ) (c : Conn)
    → Inv n k ctx
    → ConnOk n c
    → Inv n k (record ctx { connections = set ctx.connections i c })
Inv-set {n = n} ctx i c v well = record {
  channel_total = v.channel_total;
  connection_total = v.connection_total;
  connections_length = length-set ctx.connections i c ∙ v.connections_length;
  configs = v.configs;
  events = v.events;
  connections_ok = All-set (ConnOk n) ctx.connections i c v.connections_ok well;
}
