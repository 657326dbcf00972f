-- ===== src/Context/Lookup.antt =====
-- The searches of src/libgilberta/context.c over the connections: each returns the first that fits.
use libgilberta.Base.{
  ℕ, zero, suc, ◌<◌, ◌≡◌, refl, sym, ap, subst, List, [], ◌∷◌, Option, none, some, Bool, true,
  false, inl, inr, arith, length, get_elem?, set, Bool-cases, Option-cases,
}
use libgilberta.State.{Conn, ConnState, closed, established, syn_sent, syn_rcvd, fin_sent}
use libgilberta.Context.{find_index, glbctx_findconn, glbctx_findemptyconn, same_id, is_closed}

-- The index is that of the first connection with the property; without one, none has it.
pub data IsFirst (P : Conn → Type 0) (cs : List Conn) : Option ℕ → Type 0 where
  found :
      (i : ℕ) (c : Conn)
      → get_elem? cs i ≡ some c
      → P c
      → ((j : ℕ) (d : Conn) → j < i → get_elem? cs j ≡ some d → ¬ P d)
      → IsFirst P cs (some i)
  absent : ((j : ℕ) (d : Conn) → get_elem? cs j ≡ some d → ¬ P d) → IsFirst P cs none

some_injective : {a b : Conn} → some a ≡ some b → a ≡ b
some_injective e = ground arith

module _ (P : Conn → Type 0) where
  none_at : (j : ℕ) (d : Conn) → get_elem? {A = Conn} [] j ≡ some d → ¬ P d
  none_at j d e = ground arith

  IsFirst-here : (c : Conn) (cs : List Conn) → P c → IsFirst P (c ∷ cs) (some 0)
  IsFirst-here c cs p = found 0 c refl p (λ j d lt. absurd (omega arith))

  IsFirst-cons :
      (c : Conn) (cs : List Conn) (r : Option ℕ)
      → ¬ P c
      → IsFirst P cs r
      → IsFirst P (c ∷ cs) (elim r [ none ↦ none | some i ↦ some (suc i) ])
  IsFirst-cons c cs none miss (absent h) = absent go
    where
      go : (j : ℕ) (d : Conn) → get_elem? (c ∷ cs) j ≡ some d → ¬ P d
      go zero d e p = miss (subst P (sym (some_injective e)) p)
      go (suc j) d e p = h j d e p
  IsFirst-cons c cs (some i) miss (found _ b e t h) = found (suc i) b e t go
    where
      go : (j : ℕ) (d : Conn) → j < suc i → get_elem? (c ∷ cs) j ≡ some d → ¬ P d
      go zero d lt e p = miss (subst P (sym (some_injective e)) p)
      go (suc j) d lt e p = h j d (omega arith) e p

  -- A search by a test that decides the property.
  find_index-IsFirst :
      (test : Conn → Bool) (cs : List Conn)
      → ((c : Conn) → test c ≡ true → P c)
      → ((c : Conn) → test c ≡ false → ¬ P c)
      → IsFirst P cs (find_index test cs)
  unfolding find_index
  find_index-IsFirst test [] yes_P no_P = absent none_at
  find_index-IsFirst test (c ∷ cs) yes_P no_P = elim (Bool-cases (test c)) [
    | inl hit ↦ rw hit (IsFirst-here c cs (yes_P c hit))
    | inr miss ↦ rw miss (
        IsFirst-cons c cs (find_index test cs) (no_P c miss)
          (find_index-IsFirst test cs yes_P no_P))
  ]

-- A connection with both parts of an identifier.
abbrev pub HasId : ℕ → ℕ → Conn → Type 0
HasId gen id c = (c.conn_id.generation ≡ gen) × (c.conn_id.id ≡ id)

-- `glbctx_findconn` returns the index of the first connection whose generation and number are both
-- those that it is given, and NULL exactly when no connection has both.
pub glbctx_findconn-IsFirst :
    (cs : List Conn) (gen id : ℕ) → IsFirst (HasId gen id) cs (glbctx_findconn cs gen id)
unfolding glbctx_findconn
glbctx_findconn-IsFirst cs gen id =
    find_index-IsFirst (HasId gen id) (same_id gen id) cs
      (λ c e. (ground (arith, e), ground (arith, e))) (λ c e h. ground (arith, e, h.0, h.1))

pub find_index-lt :
    (test : Conn → Bool) (cs : List Conn) {i : ℕ} → find_index test cs ≡ some i → i < length cs
unfolding find_index
find_index-lt test [] e = ground arith
find_index-lt test (c ∷ cs) {i} e = elim (Option-cases (find_index test cs)) [
  | inl missing ↦ ground arith
  | inr (j, hit) ↦ ground (arith, find_index-lt test cs hit)
]

-- What becomes of the connections: that at the index gets no identifier, no repetitions, no channels and
-- no timer, its state stays; without an index nothing changes.
abbrev pub SlotReset : List Conn → List Conn → Option ℕ → Type 0
SlotReset cs after none = after ≡ cs
SlotReset cs after (some i) =
    (c : Conn) × (get_elem? cs i ≡ some c)
    × (after
        ≡ set cs i (record c {
          conn_id = record { id = 0; generation = 0 };
          retry = 0;
          channels = none;
          time = 0;
        }))

SlotReset-cons :
    (c : Conn) (cs after : List Conn) (r : Option ℕ)
    → SlotReset cs after r
    → SlotReset (c ∷ cs) (c ∷ after) (elim r [ none ↦ none | some i ↦ some (suc i) ])
SlotReset-cons c cs after none e = ap (λ xs. c ∷ xs) e
SlotReset-cons c cs after (some i) (d, at, e) = (d, at, ap (λ xs. c ∷ xs) e)

closed_of : (st : ConnState) → is_closed st ≡ true → st ≡ closed
closed_of closed e = refl
closed_of established e = ground arith
closed_of syn_sent e = ground arith
closed_of syn_rcvd e = ground arith
closed_of fin_sent e = ground arith

-- `glbctx_findemptyconn` returns the first closed connection and resets its identifier, repetitions,
-- channels and timer, or changes nothing and returns NULL when no connection is closed.
pub glbctx_findemptyconn-IsFirst :
    (cs : List Conn)
    → IsFirst (λ c. c.state ≡ closed) cs (glbctx_findemptyconn cs).1
      × SlotReset cs (glbctx_findemptyconn cs).0 (glbctx_findemptyconn cs).1
unfolding glbctx_findemptyconn
glbctx_findemptyconn-IsFirst [] = (absent (none_at (λ c. c.state ≡ closed)), refl)
glbctx_findemptyconn-IsFirst (c ∷ cs) = elim (Bool-cases (is_closed c.state)) [
  | inl hit ↦
      rw hit (IsFirst-here (λ d. d.state ≡ closed) c cs (closed_of c.state hit), (c, refl, refl))
  | inr miss ↦
      let (first, changed) = glbctx_findemptyconn-IsFirst cs in
      rw miss (
        IsFirst-cons (λ d. d.state ≡ closed) c cs (glbctx_findemptyconn cs).1
            (λ e. ground (arith, miss, ap is_closed e)) first,
        SlotReset-cons c cs (glbctx_findemptyconn cs).0 (glbctx_findemptyconn cs).1 changed,
      )
]
