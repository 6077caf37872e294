-- ===== src/ComplianceHooks/Refines/Admin.antt =====
-- The six administrative entry points against the state machine.
use mathlib.Core.Option
use safeguard_hooks.Prelude.{
  ◌+◌, ◌≡◌, refl, Bool, false, Option, none, some, is_some, unwrap_or, same, option_eq, ok, ◌==◌,
  u32_max, Bool-cases, inl, inr, [], ◌∷◌, ◌++◌, if◌then◌else◌,
}
use safeguard_hooks.Host.{Host}
use safeguard_hooks.Host.Run.{pure, ◌>>◌}
use safeguard_hooks.Host.Calls.{require_auth-Does, require_auth-Panics, publish-Does}
use safeguard_hooks.Storage.Keys.{ComplianceConfig, TokenBinding, config_eq}
use safeguard_hooks.Storage.Entries.{current_version, bump_config_version}
use safeguard_hooks.Storage.Registry.{Does-pure, Does-bind, Panics-bind}
use safeguard_hooks.Storage.Entries.Reads.{
  compliance_config-Does, token_binding-Does, is_token_bound-Does, is_frozen-Does,
}
use safeguard_hooks.Storage.Entries.Writes.{
  set_admin-Does, set_version-Does, set_compliance_config-Does, bump_config_version-Does,
  bump_config_version-Panics, bind_token-Does, unbind_token-Does, freeze_account-Does,
  unfreeze_account-Does,
}
use safeguard_hooks.Events.Kinds.{compliance_config_changed}
use safeguard_hooks.Events.Emit.{
  emit_initialized, emit_account_frozen, emit_account_unfrozen, emit_token_bound,
  emit_token_unbound, emit_compliance_config_changed,
}
use safeguard_hooks.Authorization.Gates.{is_initialized-Does}
use safeguard_hooks.ComplianceHooks.{
  initialize, set_config, bind_token, unbind_token, freeze, unfreeze,
}
use safeguard_hooks.ComplianceHooks.Transition.{
  State, returns, aborts, to_initialize, to_configure, to_bind, to_unbind, to_freeze, to_unfreeze,
  is_bound_to, as_admin, in_scope,
}
use safeguard_hooks.ComplianceHooks.Refines.{
  Meets, returning, aborting, Meets-pure, Meets-bind, Meets-if, Meets-if_not, Meets-as_admin,
  Meets-in_scope,
}

module _ ⦃H : Host⦄ (r : State) where
  open H use {Address, Address-discrete, Outside}

  pub initialize-Meets : (a : Address) → Meets (initialize a) r (to_initialize a r)
  unfolding initialize emit_initialized
  initialize-Meets a = Meets-bind _ (is_initialized-Does r) (
      Meets-if (is_some r.admin) _ _ r _ _ (λ _. Meets-pure _ r)
        λ _. elim (Bool-cases (H.signed r.outside a)) [
          | inl signed ↦ rw signed (
              returning (
                Does-bind _ (require_auth-Does r a signed) (
                  Does-bind _ (set_admin-Does _ a) (
                    Does-bind _ (set_version-Does _ current_version)
                      (Does-bind _ (publish-Does _ _) (Does-pure _ _))))))
          | inr unsigned ↦ rw unsigned (aborting (Panics-bind _ (require_auth-Panics r a unsigned)))
        ])

  unchanged-is_bound_to :
      (sac : Option Address) (o : Option (TokenBinding Address))
      → unwrap_or (Option.map (λ b. option_eq (same Address-discrete) b.sac sac) o) false
        ≡ is_bound_to sac o
  unchanged-is_bound_to sac none = refl
  unchanged-is_bound_to sac (some b) = refl

  pub bind_token-Meets :
      (token : Address) (sac : Option Address)
      → Meets (bind_token token sac) r (as_admin r (to_bind token sac))
  unfolding bind_token emit_token_bound
  bind_token-Meets token sac = Meets-as_admin _ r _ λ q. Meets-bind _ (token_binding-Does q token) (
      rw (unchanged-is_bound_to sac (q.binding token)) (
        Meets-if (is_bound_to sac (q.binding token)) _ _ q _ _ (λ _. Meets-pure _ q)
          λ _. returning (
            Does-bind _ (bind_token-Does q token sac)
              (Does-bind _ (publish-Does _ _) (Does-pure _ _)))))

  pub unbind_token-Meets :
      (token : Address) → Meets (unbind_token token) r (as_admin r (to_unbind token))
  unfolding unbind_token emit_token_unbound
  unbind_token-Meets token = Meets-as_admin _ r _ λ q. Meets-bind _ (is_token_bound-Does q token) (
      Meets-if_not (is_some (q.binding token)) _ _ q _ _ (λ _. Meets-pure _ q)
        λ bound. returning (
          Does-bind _ (unbind_token-Does q token bound)
            (Does-bind _ (publish-Does _ _) (Does-pure _ _))))

  pub freeze-Meets :
      (token account : Address)
      → Meets
          (freeze token account)
          r
          (as_admin r (λ q. in_scope token q (to_freeze token account)))
  unfolding freeze emit_account_frozen
  freeze-Meets token account = Meets-as_admin _ r _ λ q.
      Meets-in_scope token _ q (to_freeze token account) (
        Meets-bind _ (is_frozen-Does q token account) (
          Meets-if_not (q.frozen token account) _ _ q _ _
            (λ _. returning (
              Does-bind _ (freeze_account-Does q token account)
                (Does-bind _ (publish-Does _ _) (Does-pure _ _))))
            λ _. Meets-pure _ q))

  pub unfreeze-Meets :
      (token account : Address)
      → Meets
          (unfreeze token account)
          r
          (as_admin r (λ q. in_scope token q (to_unfreeze token account)))
  unfolding unfreeze emit_account_unfrozen
  unfreeze-Meets token account = Meets-as_admin _ r _ λ q.
      Meets-in_scope token _ q (to_unfreeze token account) (
        Meets-bind _ (is_frozen-Does q token account) (
          Meets-if (q.frozen token account) _ _ q _ _
            (λ frozen. returning (
              Does-bind _ (unfreeze_account-Does q token account frozen)
                (Does-bind _ (publish-Does _ _) (Does-pure _ _))))
            λ _. Meets-pure _ q))

  counted :
      (q : State) (c : ComplianceConfig Address)
      → Meets
          (bump_config_version
            >> (emit_compliance_config_changed c.policy c.sac_passthrough >> pure (ok tt)))
          (record q { config = some c; version = some (unwrap_or q.version current_version) })
          (if unwrap_or q.config_version 0 == u32_max
            then aborts
            else returns (ok tt) (record q {
              config = some c;
              version = some (unwrap_or q.version current_version);
              config_version = some (unwrap_or q.config_version 0 + 1);
              log = q.log ++ compliance_config_changed c.policy c.sac_passthrough ∷ [];
            }))
  unfolding emit_compliance_config_changed
  counted q c = elim (Bool-cases (unwrap_or q.config_version 0 == u32_max)) [
    | inl full ↦ rw full (aborting (Panics-bind _ (bump_config_version-Panics _ full)))
    | inr small ↦ rw small (
        returning (
          Does-bind _ (bump_config_version-Does _ small)
            (Does-bind _ (publish-Does _ _) (Does-pure _ _))))
  ]

  pub set_config-Meets :
      (policy : Option Address) (sac_passthrough : Bool)
      → Meets (set_config policy sac_passthrough) r (
          as_admin r (to_configure (record { policy = policy; sac_passthrough = sac_passthrough })))
  unfolding set_config
  set_config-Meets policy sac_passthrough = Meets-as_admin _ r _ λ q.
      let c : ComplianceConfig Address = record {
        policy = policy;
        sac_passthrough = sac_passthrough;
      } in
      Meets-bind _ (compliance_config-Does q) (
        Meets-if (option_eq (config_eq Address-discrete) q.config (some c)) _ _ q _ _
          (λ _. Meets-pure _ q) λ _. Meets-bind _ (set_compliance_config-Does q c) (counted q c))
