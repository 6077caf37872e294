-- ===== src/Storage/Registry.antt =====
-- What the contract's storage stands for: an abstract registry, with no keys, no stored types and
-- no lifetimes.
use safeguard_hooks.Prelude.{
  ℕ, ◌≡◌, refl, subst, Bool, true, false, Option, none, some, List, same, ◌&&◌, if◌then◌else◌,
}
use safeguard_hooks.Host.{Host, Value, View}
use safeguard_hooks.Host.Run.{M, done, panicked, pure, panic, ◌>>=◌}
use safeguard_hooks.Storage.Keys.{DataKey, ComplianceConfig, TokenBinding}
use safeguard_hooks.Events.Kinds.{Event}

pub record Registry (A W : Type 0) : Type 0 where
  pub admin : Option A
  pub config : Option (ComplianceConfig A)
  pub config_version : Option ℕ
  pub version : Option ℕ
  pub binding : A → Option (TokenBinding A)
  pub frozen : A → A → Bool
  pub log : List (Event A)
  pub outside : W

module _ {A : Type 0} where
  abbrev pub stored : {B : Type 0} → (B → Value A) → Option B → Option (Value A)
  stored f none = none
  stored f (some b) = some (f b)

  abbrev pub flagged : Bool → Option (Value A)
  flagged true = some (Value.flag true)
  flagged false = none

module _ {A W : Type 0} where
  abbrev pub instances_of : Registry A W → DataKey A → Option (Value A)
  instances_of r DataKey.admin = stored Value.address r.admin
  instances_of r DataKey.config = stored Value.config r.config
  instances_of r DataKey.config_version = stored Value.number r.config_version
  instances_of r DataKey.version = stored Value.number r.version
  instances_of r _ = none

  abbrev pub persistents_of : Registry A W → DataKey A → Option (Value A)
  persistents_of r (DataKey.token_binding t) = stored Value.binding (r.binding t)
  persistents_of r (DataKey.freeze t a) = flagged (r.frozen t a)
  persistents_of r _ = none

  abbrev pub encode : Registry A W → View A W
  encode r = record {
    instances = instances_of r;
    persistents = persistents_of r;
    events = r.log;
    outside = r.outside;
  }

-- A function on addresses, and on pairs of them, with one value changed.
module _ {A V : Type 0} (d : Discrete A) where
  abbrev pub assign : (A → V) → A → V → A → V
  assign f t v u = if same d t u then v else f u

  abbrev pub assign_pair : (A → A → V) → A → A → V → A → A → V
  assign_pair f t a v u b = if same d t u && same d a b then v else f u b

module _ ⦃H : Host⦄ where
  open H use {Address, Address-discrete, Env, Outside, view}

  -- The environment holds exactly the registry.
  pub record Shows (e : Env) (r : Registry Address Outside) : Type 0 where
    pub seen : view e ≡ encode r

  -- From every environment that shows `r`, the code returns `a` and leaves one that shows `r'`.
  pub record Does {A : Type 0} (m : M A) (r : Registry Address Outside) (a : A)
      (r' : Registry Address Outside) : Type 0 where
    pub ends : (e : Env) → Shows e r → (e' : Env) × (m e ≡ done e' a) × Shows e' r'

  -- From every environment that shows `r`, the code panics.
  pub record Panics {A : Type 0} (m : M A) (r : Registry Address Outside) : Type 0 where
    pub ends : (e : Env) → Shows e r → m e ≡ panicked

  module _ {A : Type 0} where
    pub Does-pure : (a : A) (r : Registry Address Outside) → Does (pure a) r a r
    Does-pure a r = record { ends = λ e s. (e, refl, s) }

    -- The value, where it is known under another form.
    pub Does-value :
        {m : M A} {r s : Registry Address Outside} {a b : A} → Does m r a s → a ≡ b → Does m r b s
    Does-value {m} {r} {s} d p = subst (λ a. Does m r a s) p d

    pub Panics-panic : (r : Registry Address Outside) → Panics (panic {A = A}) r
    Panics-panic r = record { ends = λ e s. refl }

  module _ {A B : Type 0} {m : M A} (f : A → M B) {r s : Registry Address Outside} {a : A} where
    pub Does-bind :
        {b : B} {t : Registry Address Outside}
        → Does m r a s
        → Does (f a) s b t
        → Does (m >>= f) r b t
    unfolding ◌>>=◌
    Does-bind {b} {t} dm df = record {
      ends = λ e h.
          let (e', ran, h') = dm.ends e h in
          let (e'', ran', h'') = df.ends e' h' in (e'', rw (ran, ◌>>=◌) ran', h'');
    }

    pub Panics-later : Does m r a s → Panics (f a) s → Panics (m >>= f) r
    unfolding ◌>>=◌
    Panics-later dm df = record {
      ends = λ e h. let (e', ran, h') = dm.ends e h in rw (ran, ◌>>=◌) (df.ends e' h');
    }

  pub Panics-bind :
      {A B : Type 0} {m : M A} (f : A → M B) {r : Registry Address Outside}
      → Panics m r
      → Panics (m >>= f) r
  unfolding ◌>>=◌
  Panics-bind f p = record { ends = λ e h. rw (p.ends e h, ◌>>=◌) refl }
