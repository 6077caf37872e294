-- ===== src/ComplianceHooks/Effects.antt =====
-- What a call can do to the registry, by cases: the one inversion of the state machine that the
-- properties of the contract are read off.
pub mod Outcomes
pub mod Posts
use safeguard_hooks.Prelude.{
  ◌+◌, ◌≡◌, Bool, true, false, ◌==◌, Option, none, some, is_some, unwrap_or, option_eq, [], ◌∷◌,
  ◌++◌, ok, u32_max,
}
use safeguard_hooks.Host.{Host}
use safeguard_hooks.Storage.Keys.{ComplianceConfig, config_eq}
use safeguard_hooks.Storage.Entries.{current_version}
use safeguard_hooks.Storage.Registry.{Registry, assign, assign_pair}
use safeguard_hooks.Events.Kinds.{
  initialized, account_frozen, account_unfrozen, token_bound, token_unbound,
  compliance_config_changed,
}
use safeguard_hooks.ComplianceHooks.{Reply}
use safeguard_hooks.ComplianceHooks.Transition.{
  State, is_bound_to, Call, initialize, set_config, bind_token, unbind_token, freeze, unfreeze,
}

module _ ⦃H : Host⦄ where
  open H use {Address, Address-discrete, Outside}

  -- The admin's signature stood, and `w` is what it leaves.
  pub record Signed (r : State) (w : Outside) : Type 0 where
    pub who : Address
    pub is_admin : r.admin ≡ some who
    pub stood : H.signed r.outside who ≡ true
    pub left : w ≡ H.after_auth r.outside who

  pub data Effect (r : State) : Call Address → Reply → State → Type 0 where
    keeps :
        {c : Call Address} {reply : Reply} (w : Outside)
        → Effect r c reply (record r { outside = w })
    initializes :
        {a : Address}
        → r.admin ≡ none
        → H.signed r.outside a ≡ true
        → Effect r (initialize a) (ok tt) (record r {
          admin = some a;
          version = some current_version;
          log = r.log ++ initialized a ∷ [];
          outside = H.after_auth r.outside a;
        })
    configures :
        {policy : Option Address} {sac_passthrough : Bool} {w : Outside}
        → Signed r w
        → option_eq
            (config_eq Address-discrete)
            r.config
            (some (record { policy = policy; sac_passthrough = sac_passthrough }))
          ≡ false
        → (unwrap_or r.config_version 0 == u32_max) ≡ false
        → Effect r (set_config policy sac_passthrough) (ok tt) (record r {
          config = some (record { policy = policy; sac_passthrough = sac_passthrough });
          version = some (unwrap_or r.version current_version);
          config_version = some (unwrap_or r.config_version 0 + 1);
          log = r.log ++ compliance_config_changed policy sac_passthrough ∷ [];
          outside = w;
        })
    binds :
        {token : Address} {sac : Option Address} {w : Outside}
        → Signed r w
        → is_bound_to sac (r.binding token) ≡ false
        → Effect r (bind_token token sac) (ok tt) (record r {
          binding = assign Address-discrete r.binding token (some (record { sac = sac }));
          log = r.log ++ token_bound token ∷ [];
          outside = w;
        })
    unbinds :
        {token : Address} {w : Outside}
        → Signed r w
        → is_some (r.binding token) ≡ true
        → Effect r (unbind_token token) (ok tt) (record r {
          binding = assign Address-discrete r.binding token none;
          log = r.log ++ token_unbound token ∷ [];
          outside = w;
        })
    freezes :
        {token account : Address} {w : Outside}
        → Signed r w
        → is_some r.config ≡ true
        → is_some (r.binding token) ≡ true
        → r.frozen token account ≡ false
        → Effect r (freeze token account) (ok tt) (record r {
          frozen = assign_pair Address-discrete r.frozen token account true;
          log = r.log ++ account_frozen token account ∷ [];
          outside = w;
        })
    unfreezes :
        {token account : Address} {w : Outside}
        → Signed r w
        → is_some r.config ≡ true
        → is_some (r.binding token) ≡ true
        → r.frozen token account ≡ true
        → Effect r (unfreeze token account) (ok tt) (record r {
          frozen = assign_pair Address-discrete r.frozen token account false;
          log = r.log ++ account_unfrozen token account ∷ [];
          outside = w;
        })
