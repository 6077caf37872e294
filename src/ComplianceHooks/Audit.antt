-- ===== src/ComplianceHooks/Audit.antt =====
-- What a reader of the events of crates/events can rebuild, without reading the contract's storage.
pub mod Replay
pub mod WellFormed
pub mod Classes
use safeguard_hooks.Prelude.{
  ℕ, ◌+◌, ◌≡◌, Bool, true, false, Option, none, some, List, [], ◌∷◌, ◌++◌, refl, is_some, ok, ap,
  ◌∙◌,
}
use safeguard_hooks.Host.{Host, View}
use safeguard_hooks.Host.Run.{done}
use safeguard_hooks.Storage.Keys.{ComplianceConfig}
use safeguard_hooks.Storage.Registry.{Registry, Shows, assign, assign_pair}
use safeguard_hooks.Events.Kinds.{
  Event, initialized, account_frozen, account_unfrozen, token_bound, token_unbound,
  compliance_config_changed,
}
use safeguard_hooks.ComplianceHooks.{Reply}
use safeguard_hooks.ComplianceHooks.Invoke.{invoke}
use safeguard_hooks.ComplianceHooks.Transition.{State, Call}
use safeguard_hooks.ComplianceHooks.Effects.{Effect}
use safeguard_hooks.ComplianceHooks.Effects.Outcomes.{invoke-Effect}

pub record Audited (A : Type 0) : Type 0 where
  pub admin : Option A
  pub config : Option (ComplianceConfig A)
  pub changes : ℕ
  pub bound : A → Bool
  pub frozen : A → A → Bool

module _ {A : Type 0} where
  abbrev pub blank : Audited A
  blank = record {
    admin = none;
    config = none;
    changes = 0;
    bound = λ _. false;
    frozen = λ _ _. false;
  }

  module _ (d : Discrete A) where
    abbrev pub noted : Audited A → Event A → Audited A
    noted s (initialized a) = record s { admin = some a }
    noted s (account_frozen t a) = record s { frozen = assign_pair d s.frozen t a true }
    noted s (account_unfrozen t a) = record s { frozen = assign_pair d s.frozen t a false }
    noted s (token_bound t) = record s { bound = assign d s.bound t true }
    noted s (token_unbound t) = record s { bound = assign d s.bound t false }
    noted s (compliance_config_changed policy sac_passthrough) = record s {
      config = some (record { policy = policy; sac_passthrough = sac_passthrough });
      changes = s.changes + 1;
    }

    unfoldable pub replay_from : Audited A → List (Event A) → Audited A
    replay_from s [] = s
    replay_from s (ev ∷ evs) = replay_from (noted s ev) evs

    abbrev pub replay : List (Event A) → Audited A
    replay evs = replay_from blank evs

    pub replay_from-append :
        (s : Audited A) (evs : List (Event A)) (ev : Event A)
        → replay_from s (evs ++ ev ∷ []) ≡ noted (replay_from s evs) ev
    unfolding replay_from
    replay_from-append s [] ev = refl
    replay_from-append s (x ∷ evs) ev = replay_from-append (noted s x) evs ev

module _ ⦃H : Host⦄ where
  open H use {Address, Env, Outside}

  -- A contract that has just been deployed.
  abbrev pub fresh : Outside → State
  fresh w = record {
    admin = none;
    config = none;
    config_version = none;
    version = none;
    binding = λ _. none;
    frozen = λ _ _. false;
    log = [];
    outside = w;
  }

  -- The environments of a deployed contract. A call that returns `ok` is committed; whatever else
  -- happens (a call that is rolled back, a read, another contract, time) keeps what is stored.
  pub data Reached : Env → Type 0 where
    deployed : (e : Env) (w : Outside) → Shows e (fresh w) → Reached e
    called : (e e' : Env) (c : Call Address) → Reached e → invoke c e ≡ done e' (ok tt) → Reached e'
    meanwhile :
        (e e' : Env) (w : Outside)
        → Reached e
        → H.view e' ≡ record (H.view e) { outside = w }
        → Reached e'

  module _ (P : State → Type 0) (start : (w : Outside) → P (fresh w))
      (apart : (r : State) (w : Outside) → P r → P (record r { outside = w }))
      (next : (r s : State) (c : Call Address) (reply : Reply)
        → P r
        → Effect r c reply s
        → P s) where
    -- What every effect keeps holds in every environment that is reached.
    pub Reached-ind : (e : Env) → Reached e → (r : State) × Shows e r × P r
    Reached-ind e (deployed _ w shown) = (fresh w, shown, start w)
    Reached-ind e' (called e _ c before ran) =
        let (r, shown, h) = Reached-ind e before in
        let (s, shown', effect) = invoke-Effect r c e e' (ok tt) shown ran in
        (s, shown', next r s c (ok tt) h effect)
    Reached-ind e' (meanwhile e _ w before seen) =
        let (r, shown, h) = Reached-ind e before in
        (
          record r { outside = w },
          record {
            seen = seen ∙ ap (λ (v : View Address Outside). record v { outside = w }) shown.seen;
          },
          apart r w h,
        )
