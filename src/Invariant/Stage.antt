-- ===== src/Invariant/Stage.antt =====
-- Inside a function of src/libgilberta the invariant is stronger or weaker than between the calls:
-- connection `i` is known to have its channels, or is marked as established without them yet, or is
-- known to be in a state that does not use them.
use libgilberta.Base.{
  ℕ, ◌<◌, ◌≡◌, ◌≢◌, ◌∙◌, sym, ap, subst, some, none, false, length, get_elem?, set,
  All-of_get_elem?, All-get_elem?, get_elem?-set_self, get_elem?-set_ne, length-set,
  lt_of_get_elem?, ℕ_discrete, arith,
}
use libgilberta.Queue.Slots.Laws.{IsValid}
use libgilberta.State.{Ctx, Conn}
use libgilberta.Invariant.{is_live, ChannelsOk, ConnOk, Inv}

pub data Stage : Type 0 where
  plain : Stage
  ready opening idle : ℕ → Stage

-- What holds of connection `j` at a stage.
abbrev pub StageOk : ℕ → Stage → ℕ → Conn → Type 0
StageOk n plain j c = ConnOk n c
StageOk n (ready i) j c = ConnOk n c × (j ≡ i → c.channels ≢ none)
StageOk n (opening i) j c = ChannelsOk n c.channels × (j ≢ i → ConnOk n c)
StageOk n (idle i) j c = ConnOk n c × (j ≡ i → is_live c.state ≡ false)

pub record At (n k : ℕ) (st : Stage) (ctx : Ctx) : Type 0 where
  pub channel_total : ctx.channel_count ≡ n
  pub connection_total : ctx.connection_count ≡ k
  pub connections_length : length ctx.connections ≡ k
  pub configs : length ctx.channel_configs ≡ n
  pub events : IsValid ctx.eventqueue
  pub each : (j : ℕ) (c : Conn) → get_elem? ctx.connections j ≡ some c → StageOk n st j c

module _ {n k : ℕ} (ctx : Ctx) where
  pub At-of_Inv : Inv n k ctx → At n k plain ctx
  At-of_Inv v = record {
    channel_total = v.channel_total;
    connection_total = v.connection_total;
    connections_length = v.connections_length;
    configs = v.configs;
    events = v.events;
    each = λ j c e. All-get_elem? (ConnOk n) ctx.connections j v.connections_ok e;
  }

  pub Inv-of_At : At n k plain ctx → Inv n k ctx
  Inv-of_At v = record {
    channel_total = v.channel_total;
    connection_total = v.connection_total;
    connections_length = v.connections_length;
    configs = v.configs;
    events = v.events;
    connections_ok = All-of_get_elem? (ConnOk n) ctx.connections v.each;
  }

  -- A stage that asks for less.
  pub At-weaken :
      (st st' : Stage)
      → ((j : ℕ) (c : Conn) → StageOk n st j c → StageOk n st' j c)
      → At n k st ctx
      → At n k st' ctx
  At-weaken st st' less v = record {
    channel_total = v.channel_total;
    connection_total = v.connection_total;
    connections_length = v.connections_length;
    configs = v.configs;
    events = v.events;
    each = λ j c e. less j c (v.each j c e);
  }

  -- Connection `i` was seen to have channels.
  pub At-ready :
      (i : ℕ) (c : Conn)
      → get_elem? ctx.connections i ≡ some c
      → c.channels ≢ none
      → At n k plain ctx
      → At n k (ready i) ctx
  At-ready i c at has v = record {
    channel_total = v.channel_total;
    connection_total = v.connection_total;
    connections_length = v.connections_length;
    configs = v.configs;
    events = v.events;
    each = λ j d e. (v.each j d e, λ same missing. has (seen j d e same missing));
  }
    where
      some_injective : {a b : Conn} → some a ≡ some b → a ≡ b
      some_injective e = ground arith

      seen :
          (j : ℕ) (d : Conn)
          → get_elem? ctx.connections j ≡ some d
          → j ≡ i
          → d.channels ≡ none
          → c.channels ≡ none
      seen j d e same missing =
          ap (λ (x : Conn). x.channels)
            (some_injective (sym at ∙ ap (get_elem? ctx.connections) (sym same) ∙ e))
          ∙ missing

  -- A write of connection `i`, which may lead to another stage.
  pub At-set :
      (st st' : Stage) (i : ℕ) (c : Conn)
      → StageOk n st' i c
      → ((j : ℕ) (d : Conn) → j ≢ i → StageOk n st j d → StageOk n st' j d)
      → At n k st ctx
      → At n k st' (record ctx { connections = set ctx.connections i c })
  At-set st st' i c well others v = record {
    channel_total = v.channel_total;
    connection_total = v.connection_total;
    connections_length = length-set ctx.connections i c ∙ v.connections_length;
    configs = v.configs;
    events = v.events;
    each = λ j d e. elim (ℕ_discrete j i) [
      | yes same ↦ here j d e same
      | no other ↦
          others j d other
            (v.each j d (sym (get_elem?-set_ne ctx.connections i j c (λ s. other (sym s))) ∙ e))
    ];
  }
    where
      some_injective : {a b : Conn} → some a ≡ some b → a ≡ b
      some_injective e = ground arith

      here :
          (j : ℕ) (d : Conn)
          → get_elem? (set ctx.connections i c) j ≡ some d
          → j ≡ i
          → StageOk n st' j d
      here j d e same =
          let at_i : get_elem? (set ctx.connections i c) i ≡ some d =
            subst (λ x. get_elem? (set ctx.connections i c) x ≡ some d) same e in
          let inside : i < length ctx.connections =
            subst (λ m. i < m) (length-set ctx.connections i c)
              (lt_of_get_elem? (set ctx.connections i c) i at_i) in
          let is : c ≡ d =
            some_injective (sym (get_elem?-set_self ctx.connections i c inside) ∙ at_i) in
          subst (λ x. StageOk n st' x d) (sym same) (subst (StageOk n st' i) is well)

module _ {n : ℕ} where
  -- Each stage but the opening one says at least what holds between the calls.
  pub plain_of_ready : {i : ℕ} (j : ℕ) (c : Conn) → StageOk n (ready i) j c → StageOk n plain j c
  plain_of_ready j c v = v.0

  pub plain_of_idle : {i : ℕ} (j : ℕ) (c : Conn) → StageOk n (idle i) j c → StageOk n plain j c
  plain_of_idle j c v = v.0

  pub opening_of_plain :
      {i : ℕ} (j : ℕ) (c : Conn) → StageOk n plain j c → StageOk n (opening i) j c
  opening_of_plain j c v = (v.shape, λ other. v)
