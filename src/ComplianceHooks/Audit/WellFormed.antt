-- ===== src/ComplianceHooks/Audit/WellFormed.antt =====
-- What is well formed in the storage of every deployed contract.
use safeguard_hooks.Prelude.{
  ℕ, ◌+◌, ◌≤◌, ◌≡◌, refl, Bool, true, false, Option, none, some, is_some, unwrap_or, arith, u32_max,
  ◌==◌, if◌then◌else◌,
}
use safeguard_hooks.Host.{Host}
use safeguard_hooks.Storage.Entries.{current_version}
use safeguard_hooks.Storage.Registry.{Shows}
use safeguard_hooks.ComplianceHooks.{Reply}
use safeguard_hooks.ComplianceHooks.Transition.{State, Call}
use safeguard_hooks.ComplianceHooks.Effects.{
  Signed, Effect, keeps, initializes, configures, binds, unbinds, freezes, unfreezes,
}
use safeguard_hooks.ComplianceHooks.Audit.{fresh, Reached, Reached-ind}

module _ ⦃H : Host⦄ where
  open H use {Address, Address-discrete, Env, Outside}

  -- The layout is stamped once there is an admin; a configuration, a binding and a frozen flag need
  -- an admin; the configuration is counted from the first, within a `u32`; a frozen flag needs a
  -- configuration.
  pub record WellFormed (r : State) : Type 0 where
    pub stamped : r.version ≡ (if is_some r.admin then some current_version else none)
    pub configured_by : is_some r.config ≡ true → is_some r.admin ≡ true
    pub bound_by : (t : Address) → is_some (r.binding t) ≡ true → is_some r.admin ≡ true
    pub counted : is_some r.config_version ≡ is_some r.config
    pub bounded : unwrap_or r.config_version 0 ≤ u32_max
    pub frozen_by : (t a : Address) → r.frozen t a ≡ true → is_some r.config ≡ true

  by_admin : {r : State} {w : Outside} → Signed r w → is_some r.admin ≡ true
  by_admin x = rw x.is_admin refl

  apart-WellFormed :
      (r : State) (w : Outside) → WellFormed r → WellFormed (record r { outside = w })
  apart-WellFormed r w h = record {
    stamped = h.stamped;
    configured_by = h.configured_by;
    bound_by = h.bound_by;
    counted = h.counted;
    bounded = h.bounded;
    frozen_by = h.frozen_by;
  }

  restamped :
      (a : Bool) (o : Option ℕ)
      → a ≡ true
      → o ≡ (if a then some current_version else none)
      → some (unwrap_or o current_version) ≡ (if a then some current_version else none)
  restamped true o t e = rw e refl
  restamped false o t e = cc

  below : (n : ℕ) → n ≤ u32_max → (n == u32_max) ≡ false → n + 1 ≤ u32_max
  below n h k = ground arith

  wellformed-Effect :
      (r s : State) (c : Call Address) (reply : Reply)
      → WellFormed r
      → Effect r c reply s
      → WellFormed s
  wellformed-Effect r _ c reply h (keeps w) = apart-WellFormed r w h
  wellformed-Effect r _ c reply h (initializes missing signed) = record {
    stamped = refl;
    configured_by = λ _. refl;
    bound_by = λ _ _. refl;
    counted = h.counted;
    bounded = h.bounded;
    frozen_by = h.frozen_by;
  }
  wellformed-Effect r _ c reply h (configures x changed small) = record {
    stamped = restamped _ r.version (by_admin x) h.stamped;
    configured_by = λ _. by_admin x;
    bound_by = h.bound_by;
    counted = refl;
    bounded = below _ h.bounded small;
    frozen_by = λ _ _ _. refl;
  }
  wellformed-Effect r _ c reply h (binds {token} x changed) = record {
    stamped = h.stamped;
    configured_by = h.configured_by;
    bound_by = λ t _. by_admin x;
    counted = h.counted;
    bounded = h.bounded;
    frozen_by = h.frozen_by;
  }
  wellformed-Effect r _ c reply h (unbinds {token} x bound) = record {
    stamped = h.stamped;
    configured_by = h.configured_by;
    bound_by = λ t _. by_admin x;
    counted = h.counted;
    bounded = h.bounded;
    frozen_by = h.frozen_by;
  }
  wellformed-Effect r _ c reply h (freezes {token} {account} x configured bound free) = record {
    stamped = h.stamped;
    configured_by = h.configured_by;
    bound_by = h.bound_by;
    counted = h.counted;
    bounded = h.bounded;
    frozen_by = λ t a _. configured;
  }
  wellformed-Effect r _ c reply h (unfreezes {token} {account} x configured bound frozen) = record {
    stamped = h.stamped;
    configured_by = h.configured_by;
    bound_by = h.bound_by;
    counted = h.counted;
    bounded = h.bounded;
    frozen_by = λ t a _. configured;
  }

  fresh-WellFormed : (w : Outside) → WellFormed (fresh w)
  fresh-WellFormed w = record {
    stamped = refl;
    configured_by = λ h. h;
    bound_by = λ _ h. h;
    counted = refl;
    bounded = omega arith;
    frozen_by = λ _ _ h. h;
  }

  -- In every environment that a deployed contract reaches, the layout version is stamped exactly
  -- when there is an admin, configurations and bindings stand only below an admin and frozen flags
  -- only below a configuration, and the configuration is counted by a version within a `u32`.
  pub Reached-WellFormed : (e : Env) → Reached e → (r : State) × Shows e r × WellFormed r
  Reached-WellFormed = Reached-ind WellFormed fresh-WellFormed apart-WellFormed wellformed-Effect
