-- ===== src/View/Slot.antt =====
-- One channel of a connection (src/libgilberta/context.h), and the reads of it.
use libgilberta.Base.{
  ℕ, ◌≡◌, refl, sym, ◌∙◌, subst, some, get_elem?, get_elem?-set_self, lt_of_get_elem?, set, arith,
}
use libgilberta.State.{Conn, Channel, Channels}
use libgilberta.Effect.{M, ◌>>=◌}
use libgilberta.Tick.Common.{get_channel}
use libgilberta.Tick.Data.{with_channel}
use libgilberta.View.{View, View-get_channel}

-- Channel `ch` of a connection.
pub record HasChannel (d : Conn) (ch : ℕ) (x : Channel) : Type 0 where
  pub chans : Channels
  pub has : d.channels ≡ some chans
  pub at : get_elem? chans.items ch ≡ some x

-- The same array in a connection that may differ elsewhere.
pub HasChannel-same :
    (d e : Conn) (ch : ℕ) (x : Channel)
    → e.channels ≡ d.channels
    → HasChannel d ch x
    → HasChannel e ch x
HasChannel-same d e ch x same h = record { chans = h.chans; has = same ∙ h.has; at = h.at }

pub HasChannel-with_channel :
    (d : Conn) (ch : ℕ) (x y : Channel) → HasChannel d ch x → HasChannel (with_channel ch y d) ch y
HasChannel-with_channel d ch x y h = record {
  chans = record (h.chans) { items = set (h.chans).items ch y };
  has = rw (h.has) refl;
  at = get_elem?-set_self (h.chans).items ch y (lt_of_get_elem? (h.chans).items ch h.at);
}

pub View-channel_is :
    {W B : Type 0} {i : ℕ} {c : Conn} {Q : B → Conn → Type 0} (ch : ℕ) (x : Channel)
    (f : Channel → M W B)
    → HasChannel c ch x
    → View i c (f x) Q
    → View i c (get_channel i ch >>= f) Q
View-channel_is {i = i} {c} {Q} ch x f h q =
    View-get_channel ch h.chans f h.has
      (λ y here. subst (λ z. View i c (f z) Q) (some_injective (sym h.at ∙ here)) q)
  where
    some_injective : {a b : Channel} → some a ≡ some b → a ≡ b
    some_injective e = ground arith
