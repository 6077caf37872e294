-- ===== src/ComplianceHooks/Returns.antt =====
-- When a call of contracts/compliance-hooks/src/lib.rs panics, and that it returns otherwise.
use safeguard_hooks.Prelude.{
  ◌≡◌, ◌⊎◌, ◌↔◌, inl, inr, refl, Bool, true, false, Option, none, some, is_some, unwrap_or,
  option_eq, [], ◌∷◌, ◌++◌, ok, err, u32_max, ◌==◌, if◌then◌else◌,
}
use safeguard_hooks.Host.{Host}
use safeguard_hooks.Host.Run.{M, panicked}
use safeguard_hooks.Storage.Keys.{ComplianceConfig, config_eq}
use safeguard_hooks.Storage.Entries.{current_version}
use safeguard_hooks.Events.Kinds
use safeguard_hooks.Storage.Registry.{Shows}
use safeguard_hooks.ComplianceHooks.{
  Reply, unbound_token, invalid_configuration, already_initialized,
}
use safeguard_hooks.ComplianceHooks.Invoke.{invoke}
use safeguard_hooks.ComplianceHooks.Transition.{
  State, Outcome, returns, aborts, if_signed, for_admin, in_scope, to_initialize, to_configure,
  to_bind, to_unbind, to_freeze, to_unfreeze, to_enforce, Call, initialize, set_config, bind_token,
  unbind_token, freeze, unfreeze, transition,
}
use safeguard_hooks.ComplianceHooks.Refines.{Meets, returning, aborting}
use safeguard_hooks.ComplianceHooks.Refines.Calls.{invoke-Meets}

module _ ⦃H : Host⦄ where
  open H use {Address, Address-discrete, Env, Outside}

  -- There is an admin, and it did not sign.
  abbrev pub AdminUnsigned : State → Type 0
  AdminUnsigned r = (a : Address) × (r.admin ≡ some a) × (H.signed r.outside a ≡ false)

  -- The configuration is not the stored one, and the counter of changes is at its end.
  abbrev pub CounterFull : State → ComplianceConfig Address → Type 0
  CounterFull r c =
      (option_eq (config_eq Address-discrete) r.config (some c) ≡ false)
      × ((unwrap_or r.config_version 0 == u32_max) ≡ true)

  abbrev pub Stops : State → Call Address → Type 0
  Stops r (initialize a) = (r.admin ≡ none) × (H.signed r.outside a ≡ false)
  Stops r (set_config policy sac_passthrough) =
      AdminUnsigned r
      ⊎ ((a : Address) × (r.admin ≡ some a)
          × (H.signed r.outside a ≡ true)
          × CounterFull r (record { policy = policy; sac_passthrough = sac_passthrough }))
  Stops r (bind_token token sac) = AdminUnsigned r
  Stops r (unbind_token token) = AdminUnsigned r
  Stops r (freeze token account) = AdminUnsigned r
  Stops r (unfreeze token account) = AdminUnsigned r
  Stops r _ = ⊥

  abbrev IsAborting : Outcome → Type 0
  IsAborting (returns reply s) = ⊥
  IsAborting aborts = Unit

  panicked_iff :
      (m : M Reply) (r : State) (o : Outcome) (e : Env)
      → Meets m r o
      → Shows e r
      → (m e ≡ panicked) ↔ IsAborting o
  panicked_iff m r _ e (returning d) shown =
      let (e', ran, _) = d.ends e shown in (λ h. cc, λ h. absurd h)
  panicked_iff m r _ e (aborting p) shown = (λ h. tt, λ h. p.ends e shown)

  module _ (r : State) (go : State → Outcome) where
    abbrev spent : Address → State
    spent a = record r { outside = H.after_auth r.outside a }

    -- Where the code behind the admin gate can panic for one reason.
    for_admin_iff :
        (P : Type 0)
        → ((a : Address) → IsAborting (go (spent a)) ↔ P)
        → (o : Option Address)
        → IsAborting (for_admin o r go) ↔ (
            ((a : Address) × (o ≡ some a) × (H.signed r.outside a ≡ false))
            ⊎ ((a : Address) × (o ≡ some a) × (H.signed r.outside a ≡ true) × P))
    for_admin_iff P behind none =
        (λ h. absurd h, λ h. elim h [ inl q ↦ cc (q.1) | inr q ↦ cc (q.1) ])
    for_admin_iff P behind (some a) = by_signature (H.signed r.outside a) refl
      where
        by_signature :
            (b : Bool)
            → H.signed r.outside a ≡ b
            → IsAborting (if_signed b (spent a) go) ↔ (
                ((c : Address) × (some a ≡ some c) × (H.signed r.outside c ≡ false))
                ⊎ ((c : Address) × (some a ≡ some c) × (H.signed r.outside c ≡ true) × P))
        by_signature true e = (
          λ h. inr (a, refl, e, (behind a).0 h),
          λ h. elim h [ inl q ↦ cc (q.1, q.2, e) | inr q ↦ (behind a).1 q.3 ],
        )
        by_signature false e = (λ h. inl (a, refl, e), λ h. tt)

    for_admin_never :
        ((a : Address) → IsAborting (go (spent a)) ↔ ⊥)
        → IsAborting (for_admin r.admin r go) ↔ AdminUnsigned r
    for_admin_never behind =
        let (to, from) = for_admin_iff ⊥ behind r.admin in
        (λ h. elim (to h) [ inl q ↦ q | inr q ↦ absurd q.3 ], λ q. from (inl q))

    in_scope_never :
        (token : Address) → (IsAborting (go r) ↔ ⊥) → IsAborting (in_scope token r go) ↔ ⊥
    in_scope_never token never = by_tests (is_some r.config) (is_some (r.binding token))
      where
        by_tests :
            (configured bound : Bool)
            → IsAborting (
                if configured
                then (if bound then go r else returns (err unbound_token) r)
                else returns (err invalid_configuration) r)
              ↔ ⊥
        by_tests true true = never
        by_tests true false = (λ h. h, λ h. h)
        by_tests false bound = (λ h. h, λ h. h)

  never : ⊥ ↔ ⊥
  never = (λ h. h, λ h. h)

  initialize_iff :
      (r : State) (a : Address) → IsAborting (to_initialize a r) ↔ Stops r (initialize a)
  initialize_iff r a = by_tests r.admin (H.signed r.outside a)
    where
      by_tests :
          (o : Option Address) (signed : Bool)
          → IsAborting (
              if is_some o
              then returns (err already_initialized) r
              else if signed
              then returns (ok tt) (record r {
                admin = some a;
                version = some current_version;
                log = r.log ++ Kinds.initialized a ∷ [];
                outside = H.after_auth r.outside a;
              })
              else aborts)
            ↔ ((o ≡ none) × (signed ≡ false))
      by_tests none true = (λ h. absurd h, λ h. cc (h.1))
      by_tests none false = (λ h. (refl, refl), λ h. tt)
      by_tests (some x) signed = (λ h. absurd h, λ h. cc (h.0))

  configure_iff :
      (r : State) (c : ComplianceConfig Address) → IsAborting (to_configure c r) ↔ CounterFull r c
  configure_iff r c = by_tests _ _ _ _
    where
      by_tests :
          (same full : Bool) (x : Reply × State) (y : Reply × State)
          → IsAborting (if same then returns x.0 x.1 else if full then aborts else returns y.0 y.1)
            ↔ ((same ≡ false) × (full ≡ true))
      by_tests true full x y = (λ h. absurd h, λ h. cc (h.0))
      by_tests false true x y = (λ h. (refl, refl), λ h. tt)
      by_tests false false x y = (λ h. absurd h, λ h. cc (h.1))

  two_never :
      (b : Bool) (x y : Reply × State)
      → IsAborting (if b then returns x.0 x.1 else returns y.0 y.1) ↔ ⊥
  two_never true x y = never
  two_never false x y = never

  bind_never :
      (r : State) (token : Address) (sac : Option Address) → IsAborting (to_bind token sac r) ↔ ⊥
  bind_never r token sac = two_never _ _ _

  unbind_never : (r : State) (token : Address) → IsAborting (to_unbind token r) ↔ ⊥
  unbind_never r token = two_never _ _ _

  freeze_never : (r : State) (token account : Address) → IsAborting (to_freeze token account r) ↔ ⊥
  freeze_never r token account = two_never _ _ _

  unfreeze_never :
      (r : State) (token account : Address) → IsAborting (to_unfreeze token account r) ↔ ⊥
  unfreeze_never r token account = two_never _ _ _

  transition_iff : (r : State) (c : Call Address) → IsAborting (transition r c) ↔ Stops r c
  unfolding transition to_enforce
  transition_iff r (initialize a) = initialize_iff r a
  transition_iff r (set_config policy sac_passthrough) =
      let c : ComplianceConfig Address = record {
        policy = policy;
        sac_passthrough = sac_passthrough;
      } in
      for_admin_iff r (to_configure c) (CounterFull r c)
        (λ a. configure_iff (record r { outside = H.after_auth r.outside a }) c) r.admin
  transition_iff r (bind_token token sac) =
      for_admin_never r (to_bind token sac)
        λ a. bind_never (spent r (to_bind token sac) a) token sac
  transition_iff r (unbind_token token) =
      for_admin_never r (to_unbind token) λ a. unbind_never (spent r (to_unbind token) a) token
  transition_iff r (freeze token account) =
      let go = to_freeze token account in
      for_admin_never r (λ q. in_scope token q go)
        λ a. in_scope_never (spent r go a) go token (freeze_never (spent r go a) token account)
  transition_iff r (unfreeze token account) =
      let go = to_unfreeze token account in
      for_admin_never r (λ q. in_scope token q go)
        λ a. in_scope_never (spent r go a) go token (unfreeze_never (spent r go a) token account)
  transition_iff r _ = never

  -- From every environment that shows a registry a call panics exactly in these cases: `initialize`
  -- of a fresh contract that the new admin did not sign, an admin call that the admin did not sign,
  -- and a `set_config` with a new configuration where the change counter is at its last value. In all
  -- others it returns; so a hook returns always.
  pub panics_iff :
      (r : State) (c : Call Address) (e : Env) → Shows e r → (invoke c e ≡ panicked) ↔ Stops r c
  panics_iff r c e shown =
      let (to_abort, of_abort) =
        panicked_iff (invoke c) r (transition r c) e (invoke-Meets r c) shown in
      let (to_stop, of_stop) = transition_iff r c in
      (λ h. to_stop (to_abort h), λ h. of_abort (of_stop h))
