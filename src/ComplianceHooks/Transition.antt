-- ===== src/ComplianceHooks/Transition.antt =====
-- The contract as a state machine on the registry: what each call promises, with no storage keys,
-- no reads and no lifetimes.
use safeguard_hooks.Prelude.{
  ◌+◌, Bool, true, false, Option, none, some, is_some, unwrap_or, same, option_eq, List, [], ◌∷◌,
  ◌++◌, ok, err, u32_max, ◌==◌, if◌then◌else◌,
}
use safeguard_hooks.HookCore.Operation.{Operation}
use safeguard_hooks.Host.{Host}
use safeguard_hooks.Storage.Keys.{ComplianceConfig, TokenBinding, config_eq}
use safeguard_hooks.Storage.Entries.{current_version}
use safeguard_hooks.Storage.Registry.{Registry, assign, assign_pair}
use safeguard_hooks.Events.Kinds.{
  initialized, account_frozen, account_unfrozen, token_bound, token_unbound,
  compliance_config_changed,
}
use safeguard_hooks.Compliance.Evaluator.Checks.{verdict}
use safeguard_hooks.ComplianceHooks.{
  Reply, unbound_token, invalid_configuration, already_initialized, enforce,
}

-- The calls that the contract accepts, its public reads aside.
pub data Call (A : Type 0) : Type 0 where
  initialize : (admin : A) → Call A
  set_config : (policy : Option A) (sac_passthrough : Bool) → Call A
  bind_token : (token : A) (sac : Option A) → Call A
  unbind_token : (token : A) → Call A
  freeze unfreeze : (token account : A) → Call A
  before_register before_withdraw before_merge : (token account : A) → Call A
  before_deposit before_transfer : (token source target : A) → Call A
  before_transfer_from : (token delegate source target : A) → Call A

module _ ⦃H : Host⦄ where
  open H use {Address, Address-discrete, Outside}

  abbrev pub State : Type 0
  State = Registry Address Outside

  -- A call returns a reply and a state, or it panics.
  pub data Outcome : Type 0 where
    returns : Reply → State → Outcome
    aborts : Outcome

  abbrev pub if_signed : Bool → State → (State → Outcome) → Outcome
  if_signed true q go = go q
  if_signed false q go = aborts

  abbrev pub for_admin : Option Address → State → (State → Outcome) → Outcome
  for_admin none r go = returns (err invalid_configuration) r
  for_admin (some a) r go =
      if_signed (H.signed r.outside a) (record r { outside = H.after_auth r.outside a }) go

  -- Only the admin goes on, with the signature used up.
  abbrev pub as_admin : State → (State → Outcome) → Outcome
  as_admin r go = for_admin r.admin r go

  -- Only a configured contract goes on, for a bound token.
  abbrev pub in_scope : (token : Address) → State → (State → Outcome) → Outcome
  in_scope token r go =
      if is_some r.config
      then (if is_some (r.binding token) then go r else returns (err unbound_token) r)
      else returns (err invalid_configuration) r

  abbrev pub to_initialize : Address → State → Outcome
  to_initialize a r =
      if is_some r.admin
      then returns (err already_initialized) r
      else if H.signed r.outside a
      then returns (ok tt) (record r {
        admin = some a;
        version = some current_version;
        log = r.log ++ initialized a ∷ [];
        outside = H.after_auth r.outside a;
      })
      else aborts

  abbrev pub to_configure : ComplianceConfig Address → State → Outcome
  to_configure c r =
      if option_eq (config_eq Address-discrete) r.config (some c)
      then returns (ok tt) r
      else if unwrap_or r.config_version 0 == u32_max
      then aborts
      else returns (ok tt) (record r {
        config = some c;
        version = some (unwrap_or r.version current_version);
        config_version = some (unwrap_or r.config_version 0 + 1);
        log = r.log ++ compliance_config_changed c.policy c.sac_passthrough ∷ [];
      })

  -- Whether a binding is there, with this SAC.
  abbrev pub is_bound_to : Option Address → Option (TokenBinding Address) → Bool
  is_bound_to sac none = false
  is_bound_to sac (some b) = option_eq (same Address-discrete) b.sac sac

  abbrev pub to_bind : Address → Option Address → State → Outcome
  to_bind token sac r =
      if is_bound_to sac (r.binding token)
      then returns (ok tt) r
      else returns (ok tt) (record r {
        binding = assign Address-discrete r.binding token (some (record { sac = sac }));
        log = r.log ++ token_bound token ∷ [];
      })

  abbrev pub to_unbind : Address → State → Outcome
  to_unbind token r =
      if is_some (r.binding token)
      then returns (ok tt) (record r {
        binding = assign Address-discrete r.binding token none;
        log = r.log ++ token_unbound token ∷ [];
      })
      else returns (ok tt) r

  abbrev pub to_freeze : (token account : Address) → State → Outcome
  to_freeze token account r =
      if r.frozen token account
      then returns (ok tt) r
      else returns (ok tt) (record r {
        frozen = assign_pair Address-discrete r.frozen token account true;
        log = r.log ++ account_frozen token account ∷ [];
      })

  abbrev pub to_unfreeze : (token account : Address) → State → Outcome
  to_unfreeze token account r =
      if r.frozen token account
      then returns (ok tt) (record r {
        frozen = assign_pair Address-discrete r.frozen token account false;
        log = r.log ++ account_unfrozen token account ∷ [];
      })
      else returns (ok tt) r

  -- A hook replies with the verdict of its checks.
  unfoldable pub to_enforce : Operation → (token : Address) → List Address → State → Outcome
  unfolding enforce
  to_enforce op token accounts r =
      let (decision, w) = verdict r token op accounts in
      returns (enforce decision) (record r { outside = w })

  unfoldable pub transition : State → Call Address → Outcome
  transition r (initialize a) = to_initialize a r
  transition r (set_config policy sac_passthrough) =
      as_admin r (to_configure (record { policy = policy; sac_passthrough = sac_passthrough }))
  transition r (bind_token token sac) = as_admin r (to_bind token sac)
  transition r (unbind_token token) = as_admin r (to_unbind token)
  transition r (freeze token account) = as_admin r (λ q. in_scope token q (to_freeze token account))
  transition r (unfreeze token account) =
      as_admin r (λ q. in_scope token q (to_unfreeze token account))
  transition r (before_register token account) =
      to_enforce Operation.register token (account ∷ []) r
  transition r (before_deposit token source target) =
      to_enforce Operation.deposit token (source ∷ target ∷ []) r
  transition r (before_transfer token source target) =
      to_enforce Operation.transfer token (source ∷ target ∷ []) r
  transition r (before_withdraw token account) =
      to_enforce Operation.withdraw token (account ∷ account ∷ []) r
  transition r (before_merge token account) = to_enforce Operation.merge token (account ∷ []) r
  transition r (before_transfer_from token delegate source target) =
      to_enforce Operation.transfer_from token (delegate ∷ source ∷ target ∷ []) r
