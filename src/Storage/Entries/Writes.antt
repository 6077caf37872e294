-- ===== src/Storage/Entries/Writes.antt =====
-- Every write of crates/storage changes the registry in its own place, and nowhere else.
use safeguard_hooks.Prelude.{
  ℕ, ◌+◌, ◌≡◌, refl, ap, ◌∙◌, fun_ext, true, false, Option, none, some, is_some, Option-cases, inl,
  inr, unwrap_or, subst, ◌==◌, u32_max, if◌then◌else◌,
}
use safeguard_hooks.Host.{Host, Value, View, put}
use safeguard_hooks.Host.Run.{done, pure}
use safeguard_hooks.Storage.Keys.{DataKey, ComplianceConfig}
use safeguard_hooks.Storage.Entries.{
  set_admin, set_version, write_config, set_compliance_config, write_config_version,
  bump_config_version, bind_token, unbind_token, freeze_account, unfreeze_account, current_version,
}
use safeguard_hooks.Storage.Registry.{
  Registry, Does, Does-pure, Does-bind, instances_of, persistents_of, encode, assign, assign_pair,
  Panics, Panics-later, Panics-panic,
}
use safeguard_hooks.Storage.Entries.Reads.{version-Does, config_version-Does, if_stored-present}
use safeguard_hooks.Storage.Entries.Puts.{
  put_admin, put_config, put_config_version, put_version, put_binding, put-freeze,
}

module _ ⦃H : Host⦄ where
  open H use {
    Address, Address-discrete, Env, Outside, view, view-instance_set, view-persistent_set,
    view-persistent_remove,
  }

  set_instance-Does :
      (r r' : Registry Address Outside) (k : DataKey Address) (v : Value Address)
      → ((j : DataKey Address)
          → put Address-discrete (instances_of r) k (some v) j ≡ instances_of r' j)
      → record (encode r) { instances = instances_of r' } ≡ encode r'
      → Does (λ e. done (H.instance_set e k v) tt) r tt r'
  set_instance-Does r r' k v entries rest = record {
    ends = λ e s. (
      _,
      refl,
      record {
        seen =
            view-instance_set e k v
            ∙ ap
                (λ (w : View Address Outside). record w {
                  instances = put Address-discrete w.instances k (some v);
                })
                s.seen
            ∙ ap (λ f. record (encode r) { instances = f }) (fun_ext entries)
            ∙ rest;
      },
    );
  }

  change_persistent-Does :
      (change : Env → Env) (r r' : Registry Address Outside) (k : DataKey Address)
      (o : Option (Value Address))
      → ((e : Env)
          → view (change e)
            ≡ record (view e) { persistents = put Address-discrete (view e).persistents k o })
      → ((j : DataKey Address)
          → put Address-discrete (persistents_of r) k o j ≡ persistents_of r' j)
      → record (encode r) { persistents = persistents_of r' } ≡ encode r'
      → Does (λ e. done (change e) tt) r tt r'
  change_persistent-Does change r r' k o changed entries rest = record {
    ends = λ e s. (
      _,
      refl,
      record {
        seen =
            changed e
            ∙ ap
                (λ (w : View Address Outside). record w {
                  persistents = put Address-discrete w.persistents k o;
                })
                s.seen
            ∙ ap (λ f. record (encode r) { persistents = f }) (fun_ext entries)
            ∙ rest;
      },
    );
  }

  module _ (r : Registry Address Outside) where
    pub set_admin-Does : (a : Address) → Does (set_admin a) r tt (record r { admin = some a })
    unfolding set_admin
    set_admin-Does a = set_instance-Does r _ DataKey.admin _ (put_admin Address-discrete r a) refl

    pub set_version-Does : (n : ℕ) → Does (set_version n) r tt (record r { version = some n })
    unfolding set_version
    set_version-Does n =
        set_instance-Does r _ DataKey.version _ (put_version Address-discrete r n) refl

    write_config-Does :
        (c : ComplianceConfig Address) → Does (write_config c) r tt (record r { config = some c })
    unfolding write_config
    write_config-Does c =
        set_instance-Does r _ DataKey.config _ (put_config Address-discrete r c) refl

    write_config_version-Does :
        (n : ℕ) → Does (write_config_version n) r tt (record r { config_version = some n })
    unfolding write_config_version
    write_config_version-Does n =
        set_instance-Does r _ DataKey.config_version _ (put_config_version Address-discrete r n)
          refl

    pub bind_token-Does :
        (t : Address) (sac : Option Address)
        → Does (bind_token t sac) r tt (record r {
          binding = assign Address-discrete r.binding t (some (record { sac = sac }));
        })
    unfolding bind_token
    bind_token-Does t sac =
        change_persistent-Does _ r _ (DataKey.token_binding t) _ (λ e. view-persistent_set e _ _)
          (put_binding Address-discrete r t (some (record { sac = sac }))) refl

    pub freeze_account-Does :
        (t a : Address)
        → Does
            (freeze_account t a)
            r
            tt
            (record r { frozen = assign_pair Address-discrete r.frozen t a true })
    unfolding freeze_account
    freeze_account-Does t a =
        change_persistent-Does _ r _ (DataKey.freeze t a) _ (λ e. view-persistent_set e _ _)
          (put-freeze Address-discrete r t a true) refl

    -- Removing an entry that is there.
    pub unbind_token-Does :
        (t : Address)
        → is_some (r.binding t) ≡ true
        → Does
            (unbind_token t)
            r
            tt
            (record r { binding = assign Address-discrete r.binding t none })
    unfolding unbind_token
    unbind_token-Does t bound = elim (Option-cases (r.binding t)) [
      | inl missing ↦ cc
      | inr (b, present) ↦ if_stored-present _ _ _ (rw present refl) (
          change_persistent-Does _ r _ (DataKey.token_binding t) none
            (λ e. view-persistent_remove e _) (put_binding Address-discrete r t none) refl)
    ]

    pub unfreeze_account-Does :
        (t a : Address)
        → r.frozen t a ≡ true
        → Does
            (unfreeze_account t a)
            r
            tt
            (record r { frozen = assign_pair Address-discrete r.frozen t a false })
    unfolding unfreeze_account
    unfreeze_account-Does t a frozen = if_stored-present _ _ _ (rw frozen refl) (
        change_persistent-Does _ r _ (DataKey.freeze t a) none (λ e. view-persistent_remove e _)
          (put-freeze Address-discrete r t a false) refl)

  stamp-Does :
      (o : Option ℕ) (r : Registry Address Outside)
      → r.version ≡ o
      → Does
          (if is_some o then pure tt else set_version current_version)
          r
          tt
          (record r { version = some (unwrap_or o current_version) })
  stamp-Does none r e = set_version-Does r current_version
  stamp-Does (some v) r e =
      subst (λ w. Does (pure tt) r tt (record r { version = w })) e (Does-pure tt r)

  -- The layout stamp is written only where none stands.
  pub set_compliance_config-Does :
      (r : Registry Address Outside) (c : ComplianceConfig Address)
      → Does
          (set_compliance_config c)
          r
          tt
          (record r { config = some c; version = some (unwrap_or r.version current_version) })
  unfolding set_compliance_config
  set_compliance_config-Does r c = Does-bind _ (write_config-Does r c) (
      Does-bind _ (version-Does (record r { config = some c }))
        (stamp-Does r.version (record r { config = some c }) refl))

  pub bump_config_version-Does :
      (r : Registry Address Outside)
      → (unwrap_or r.config_version 0 == u32_max) ≡ false
      → Does bump_config_version r tt
          (record r { config_version = some (unwrap_or r.config_version 0 + 1) })
  unfolding bump_config_version
  bump_config_version-Does r small =
      Does-bind _ (config_version-Does r)
        (rw small (write_config_version-Does r (unwrap_or r.config_version 0 + 1)))

  -- At the largest `u32` the checked addition panics.
  pub bump_config_version-Panics :
      (r : Registry Address Outside)
      → (unwrap_or r.config_version 0 == u32_max) ≡ true
      → Panics bump_config_version r
  unfolding bump_config_version
  bump_config_version-Panics r full =
      Panics-later _ (config_version-Does r) (rw full (Panics-panic r))
