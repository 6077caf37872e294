-- ===== src/ComplianceHooks/Effects/Posts.antt =====
-- contracts/compliance-hooks/src/lib.rs: a call that returns `ok` has done what it is for.
use mathlib.Core.Bool.{beq}
use safeguard_hooks.Prelude.{
  and_true, ◌≡◌, refl, ap, ◌∙◌, Bool, true, false, Option, none, some, is_some, option_eq, ok, same,
  same_self, same_sound, ◌==◌, unwrap_or, u32_max, [], ◌∷◌, none_of_is_some,
}
use safeguard_hooks.HookCore.Operation.{Operation}
use safeguard_hooks.HookCore.Decision.{ComplianceDecision, allow, deny}
use safeguard_hooks.Host.{Host}
use safeguard_hooks.Host.Run.{done}
use safeguard_hooks.Storage.Keys.{ComplianceConfig, TokenBinding, config_eq}
use safeguard_hooks.Storage.Registry.{Shows, assign, assign_pair}
use safeguard_hooks.Compliance.Evaluator.Checks.{verdict}
use safeguard_hooks.ComplianceHooks.{Reply, enforce}
use safeguard_hooks.ComplianceHooks.Invoke.{invoke}
use safeguard_hooks.ComplianceHooks.Transition.{
  State, Call, initialize, set_config, bind_token, unbind_token, freeze, unfreeze, before_register,
  before_withdraw, before_merge, before_deposit, before_transfer, before_transfer_from,
  to_configure, to_bind, to_unbind, to_freeze, to_unfreeze, to_enforce, is_bound_to, in_scope,
  transition,
}
use safeguard_hooks.ComplianceHooks.Refines.Calls.{invoke-Meets}
use safeguard_hooks.ComplianceHooks.Effects.Outcomes.{
  Holds, holding, vacuous, Holds-if, Holds-for_admin, Holds-in_scope, ended,
}

beq_sound : (a b : Bool) → beq a b ≡ true → a ≡ b
beq_sound true true h = refl
beq_sound true false h = cc
beq_sound false true h = cc
beq_sound false false h = refl

module _ {A : Type 0} (d : Discrete A) where
  option_eq_sound : (a b : Option A) → option_eq (same d) a b ≡ true → a ≡ b
  option_eq_sound none none h = refl
  option_eq_sound none (some b) h = cc
  option_eq_sound (some a) none h = cc
  option_eq_sound (some a) (some b) h = ap some (same_sound d a b h)

  same_config :
      (o : Option (ComplianceConfig A)) (c : ComplianceConfig A)
      → option_eq (config_eq d) o (some c) ≡ true
      → o ≡ some c
  same_config none c h = cc
  same_config (some b) c h =
      let (p, q) = (and_true _ _).0 h in
      let policy = option_eq_sound b.policy c.policy p in
      let passthrough = beq_sound b.sac_passthrough c.sac_passthrough q in
      ap (λ x. some (record { policy = x; sac_passthrough = b.sac_passthrough })) policy
      ∙ ap (λ x. some (record { policy = c.policy; sac_passthrough = x })) passthrough

module _ ⦃H : Host⦄ where
  open H use {Address, Address-discrete, Env, Outside}

  pub same_binding :
      (sac : Option Address) (o : Option (TokenBinding Address))
      → is_bound_to sac o ≡ true
      → o ≡ some (record { sac = sac })
  same_binding sac none h = cc
  same_binding sac (some b) h =
      ap (λ x. some (record { sac = x })) (option_eq_sound Address-discrete b.sac sac h)

  -- What a call that returns `ok` stands for: the state it asked for, or an allowed operation.
  abbrev pub Post : State → Call Address → State → Type 0
  Post r (initialize a) s = (r.admin ≡ none) × (s.admin ≡ some a)
  Post r (set_config policy sac_passthrough) s =
      s.config ≡ some (record { policy = policy; sac_passthrough = sac_passthrough })
  Post r (bind_token token sac) s = s.binding token ≡ some (record { sac = sac })
  Post r (unbind_token token) s = s.binding token ≡ none
  Post r (freeze token account) s = s.frozen token account ≡ true
  Post r (unfreeze token account) s = s.frozen token account ≡ false
  Post r (before_register token account) s =
      (verdict r token Operation.register (account ∷ [])).0 ≡ allow
  Post r (before_withdraw token account) s =
      (verdict r token Operation.withdraw (account ∷ account ∷ [])).0 ≡ allow
  Post r (before_merge token account) s = (verdict r token Operation.merge (account ∷ [])).0 ≡ allow
  Post r (before_deposit token source target) s =
      (verdict r token Operation.deposit (source ∷ target ∷ [])).0 ≡ allow
  Post r (before_transfer token source target) s =
      (verdict r token Operation.transfer (source ∷ target ∷ [])).0 ≡ allow
  Post r (before_transfer_from token delegate source target) s =
      (verdict r token Operation.transfer_from (delegate ∷ source ∷ target ∷ [])).0 ≡ allow

  abbrev Done : State → Call Address → Reply → State → Type 0
  Done r c reply s = reply ≡ ok tt → Post r c s

  pub enforce_ok : (d : ComplianceDecision) → enforce d ≡ ok tt → d ≡ allow
  unfolding enforce
  enforce_ok allow h = refl
  enforce_ok (deny why) h = cc

  assigned :
      {V : Type 0} (f : Address → V) (t : Address) (v : V) → assign Address-discrete f t v t ≡ v
  assigned f t v = rw (same_self Address-discrete t) refl

  assigned_pair :
      (f : Address → Address → Bool) (t a : Address) (v : Bool)
      → assign_pair Address-discrete f t a v t a ≡ v
  assigned_pair f t a v = rw (same_self Address-discrete t, same_self Address-discrete a) refl

  transition-Done : (r : State) (c : Call Address) → Holds (Done r c) (transition r c)
  unfolding transition to_enforce
  transition-Done r (initialize a) =
      Holds-if (is_some r.admin) _ _ (λ _. holding (λ h. cc))
        λ missing.
          Holds-if (H.signed r.outside a) _ _
            (λ _. holding (λ _. (none_of_is_some r.admin missing, refl))) λ _. vacuous
  transition-Done r (set_config policy sac_passthrough) =
      let c : ComplianceConfig Address = record {
        policy = policy;
        sac_passthrough = sac_passthrough;
      } in
      Holds-for_admin r _ (to_configure c) refl (λ h. cc)
        λ w s.
          Holds-if (option_eq (config_eq Address-discrete) r.config (some c)) _ _
            (λ same_one. holding (λ _. same_config Address-discrete r.config c same_one))
            λ _.
              Holds-if (unwrap_or r.config_version 0 == u32_max) _ _ (λ _. vacuous)
                λ _. holding (λ _. refl)
  transition-Done r (bind_token token sac) =
      Holds-for_admin r _ (to_bind token sac) refl (λ h. cc)
        λ w s.
          Holds-if (is_bound_to sac (r.binding token)) _ _
            (λ bound. holding (λ _. same_binding sac (r.binding token) bound))
            λ _. holding (λ _. assigned r.binding token _)
  transition-Done r (unbind_token token) =
      Holds-for_admin r _ (to_unbind token) refl (λ h. cc)
        λ w s.
          Holds-if (is_some (r.binding token)) _ _
            (λ _. holding (λ _. assigned r.binding token none))
            λ unbound. holding (λ _. none_of_is_some (r.binding token) unbound)
  transition-Done r (freeze token account) =
      let go = to_freeze token account in
      Holds-for_admin r _ (λ q. in_scope token q go) refl (λ h. cc)
        λ w s.
          Holds-in_scope token (record r { outside = w }) go (λ h. cc) (λ h. cc)
            λ _ _.
              Holds-if (r.frozen token account) _ _ (λ frozen. holding (λ _. frozen))
                λ _. holding (λ _. assigned_pair r.frozen token account true)
  transition-Done r (unfreeze token account) =
      let go = to_unfreeze token account in
      Holds-for_admin r _ (λ q. in_scope token q go) refl (λ h. cc)
        λ w s.
          Holds-in_scope token (record r { outside = w }) go (λ h. cc) (λ h. cc)
            λ _ _.
              Holds-if (r.frozen token account) _ _
                (λ _. holding (λ _. assigned_pair r.frozen token account false))
                λ free. holding (λ _. free)
  transition-Done r (before_register token account) = holding (enforce_ok _)
  transition-Done r (before_withdraw token account) = holding (enforce_ok _)
  transition-Done r (before_merge token account) = holding (enforce_ok _)
  transition-Done r (before_deposit token source target) = holding (enforce_ok _)
  transition-Done r (before_transfer token source target) = holding (enforce_ok _)
  transition-Done r (before_transfer_from token delegate source target) = holding (enforce_ok _)

  -- A call that returns `ok` has done what it is for: afterwards the admin, the configuration, the
  -- binding or the flag is the one asked for, `initialize` found no admin, and a hook's operation
  -- was allowed by the checks on the state it started from.
  pub ok_means :
      (r : State) (c : Call Address) (e e' : Env)
      → Shows e r
      → invoke c e ≡ done e' (ok tt)
      → (s : State) × Shows e' s × Post r c s
  ok_means r c e e' shown ran =
      let (s, shown', post) =
        ended e e' (ok tt) r (Done r c) (invoke c) _ (invoke-Meets r c) (transition-Done r c) shown
          ran in
      (s, shown', post refl)
