-- ===== src/ComplianceHooks/Redundant.antt =====
-- contracts/compliance-hooks/src/lib.rs: a call whose effect is already in place changes nothing.
use mathlib.Core.Bool.{beq}
use safeguard_hooks.Prelude.{
  ◌≡◌, refl, sym, ap, ◌∙◌, Bool, true, false, Option, none, some, is_some, option_eq, same,
  same_self,
}
use safeguard_hooks.Host.{Host}
use safeguard_hooks.Host.Run.{done}
use safeguard_hooks.Storage.Keys.{ComplianceConfig, config_eq}
use safeguard_hooks.Storage.Registry.{Shows}
use safeguard_hooks.ComplianceHooks.{Reply}
use safeguard_hooks.ComplianceHooks.Invoke.{invoke}
use safeguard_hooks.ComplianceHooks.Transition.{
  State, Call, initialize, set_config, bind_token, unbind_token, freeze, unfreeze, is_bound_to,
}
use safeguard_hooks.ComplianceHooks.Effects.{
  Effect, keeps, initializes, configures, binds, unbinds, freezes, unfreezes,
}
use safeguard_hooks.ComplianceHooks.Effects.Outcomes.{invoke-Effect}
use safeguard_hooks.ComplianceHooks.Authority.{Agrees}

module _ {A : Type 0} (d : Discrete A) where
  option_eq_self : (o : Option A) → option_eq (same d) o o ≡ true
  option_eq_self none = refl
  option_eq_self (some a) = same_self d a

  beq_self : (b : Bool) → beq b b ≡ true
  beq_self true = refl
  beq_self false = refl

  config_eq_self : (c : ComplianceConfig A) → config_eq d c c ≡ true
  config_eq_self c = rw (option_eq_self c.policy, beq_self c.sac_passthrough) refl

module _ ⦃H : Host⦄ where
  open H use {Address, Address-discrete, Env, Outside}

  -- What the call is for holds already.
  abbrev pub InPlace : State → Call Address → Type 0
  InPlace r (initialize a) = is_some r.admin ≡ true
  InPlace r (set_config policy sac_passthrough) =
      r.config ≡ some (record { policy = policy; sac_passthrough = sac_passthrough })
  InPlace r (bind_token token sac) = r.binding token ≡ some (record { sac = sac })
  InPlace r (unbind_token token) = r.binding token ≡ none
  InPlace r (freeze token account) = r.frozen token account ≡ true
  InPlace r (unfreeze token account) = r.frozen token account ≡ false
  InPlace r _ = Unit

  redundant-Effect :
      (r s : State) (c : Call Address) (reply : Reply)
      → InPlace r c
      → Effect r c reply s
      → Agrees r s
  redundant-Effect r _ c reply h (keeps w) = refl
  redundant-Effect r _ _ reply h (initializes missing signed) = cc (ap is_some missing)
  redundant-Effect r _ _ reply h (configures {policy} {sac_passthrough} x changed small) =
      let c : ComplianceConfig Address = record {
        policy = policy;
        sac_passthrough = sac_passthrough;
      } in
      cc (
        sym (ap (λ o. option_eq (config_eq Address-discrete) o (some c)) h) ∙ changed,
        config_eq_self Address-discrete c,
      )
  redundant-Effect r _ _ reply h (binds {token} {sac} x changed) =
      cc (sym (ap (is_bound_to sac) h) ∙ changed, option_eq_self Address-discrete sac)
  redundant-Effect r _ _ reply h (unbinds x bound) = cc (ap is_some h)
  redundant-Effect r _ _ reply h (freezes x configured bound free) = cc
  redundant-Effect r _ _ reply h (unfreezes x configured bound frozen) = cc

  -- A call whose effect is in place already, and any hook, leaves all that the contract stores and
  -- publishes as it was: repeating an administrative call publishes no second event and counts no
  -- new version of the configuration, and a second `initialize` changes nothing.
  pub redundant_keeps :
      (r : State) (c : Call Address) (e e' : Env) (reply : Reply)
      → Shows e r
      → InPlace r c
      → invoke c e ≡ done e' reply
      → (s : State) × Shows e' s × Agrees r s
  redundant_keeps r c e e' reply shown h ran =
      let (s, shown', effect) = invoke-Effect r c e e' reply shown ran in
      (s, shown', redundant-Effect r s c reply h effect)
