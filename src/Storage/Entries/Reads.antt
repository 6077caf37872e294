-- ===== src/Storage/Entries/Reads.antt =====
-- Every read of crates/storage returns what the registry holds, changes nothing that is seen of the
-- environment, and never panics.
use safeguard_hooks.Prelude.{
  ◌≡◌, refl, ap, ◌∙◌, true, false, Option, none, some, is_some, Bool-cases, Option-cases, inl, inr,
}
use safeguard_hooks.Host.{Host, Value}
use safeguard_hooks.Host.Run.{M, done}
use safeguard_hooks.Storage.Keys.{DataKey, TokenBinding}
use safeguard_hooks.Storage.Entries.{
  to_address, to_config, to_number, to_binding, read_instance, touch, admin, version,
  compliance_config, config_version, typed, if_stored, read_binding, token_binding, is_token_bound,
  is_frozen,
}
use safeguard_hooks.Storage.Registry.{
  Registry, Shows, Does, Does-pure, Does-bind, stored, instances_of, persistents_of,
}

module _ ⦃H : Host⦄ where
  open H use {
    Address, Env, Outside, view, instance_has_lem, instance_get_lem, persistent_has_lem,
    persistent_get_lem, view-extend_ttl,
  }

  has_instance :
      {e : Env} {r : Registry Address Outside} (k : DataKey Address)
      → Shows e r
      → H.instance_has e k ≡ is_some (instances_of r k)
  has_instance {e} k s = rw (instance_has_lem e k) (ap (λ v. is_some (v.instances k)) s.seen)

  get_instance :
      {e : Env} {r : Registry Address Outside} (k : DataKey Address)
      → Shows e r
      → H.instance_get e k ≡ instances_of r k
  get_instance {e} k s = rw (instance_get_lem e k) (ap (λ v. v.instances k) s.seen)

  pub has_persistent :
      {e : Env} {r : Registry Address Outside} (k : DataKey Address)
      → Shows e r
      → H.persistent_has e k ≡ is_some (persistents_of r k)
  has_persistent {e} k s = rw (persistent_has_lem e k) (ap (λ v. is_some (v.persistents k)) s.seen)

  get_persistent :
      {e : Env} {r : Registry Address Outside} (k : DataKey Address)
      → Shows e r
      → H.persistent_get e k ≡ persistents_of r k
  get_persistent {e} k s = rw (persistent_get_lem e k) (ap (λ v. v.persistents k) s.seen)

  read_instance-Does :
      {B : Type 0} (convert : Value Address → Option B) (f : B → Value Address)
      (k : DataKey Address) (r : Registry Address Outside) (o : Option B)
      → ((b : B) → convert (f b) ≡ some b)
      → instances_of r k ≡ stored f o
      → Does (read_instance convert k) r o r
  read_instance-Does convert f k r none inverse eq = record {
    ends = λ e s. (e, rw (has_instance k s, eq) refl, s);
  }
  read_instance-Does convert f k r (some b) inverse eq = record {
    ends = λ e s. (e, rw (has_instance k s, get_instance k s, eq) (rw (inverse b) refl), s);
  }

  module _ {B : Type 0} (key : DataKey Address) (m n : M B) {r s : Registry Address Outside}
      {b : B} where
    pub if_stored-present :
        is_some (persistents_of r key) ≡ true → Does m r b s → Does (if_stored key m n) r b s
    if_stored-present h dm = record {
      ends = λ e shown. rw (has_persistent key shown, h) (dm.ends e shown);
    }

    pub if_stored-missing :
        is_some (persistents_of r key) ≡ false → Does n r b s → Does (if_stored key m n) r b s
    if_stored-missing h dn = record {
      ends = λ e shown. rw (has_persistent key shown, h) (dn.ends e shown);
    }

  module _ (r : Registry Address Outside) where
    pub admin-Does : Does admin r r.admin r
    unfolding admin
    admin-Does = read_instance-Does to_address Value.address _ r r.admin (λ b. refl) refl

    pub version-Does : Does version r r.version r
    unfolding version
    version-Does = read_instance-Does to_number Value.number _ r r.version (λ b. refl) refl

    pub compliance_config-Does : Does compliance_config r r.config r
    unfolding compliance_config
    compliance_config-Does = read_instance-Does to_config Value.config _ r r.config (λ b. refl) refl

    pub config_version-Does : Does config_version r r.config_version r
    unfolding config_version
    config_version-Does =
        read_instance-Does to_number Value.number _ r r.config_version (λ b. refl) refl

    -- Renewing a lifetime is not seen.
    pub touch-Does : (key : DataKey Address) → Does (touch key) r tt r
    unfolding touch
    touch-Does key = elim (Bool-cases (is_some (persistents_of r key))) [
      | inl h ↦
          if_stored-present key _ _ h (record {
            ends = λ e s. (_, refl, record { seen = view-extend_ttl e key _ _ ∙ s.seen });
          })
      | inr h ↦ if_stored-missing key _ _ h (Does-pure tt r)
    ]

    read_binding-Does :
        (token : Address) → Does (read_binding (DataKey.token_binding token)) r (r.binding token) r
    unfolding read_binding
    read_binding-Does token = record {
      ends = λ e s.
          rw (get_persistent (DataKey.token_binding token) s) (by_cases (r.binding token) e s);
    }
      where
        by_cases :
            (o : Option (TokenBinding Address)) (e : Env)
            → Shows e r
            → (e' : Env) × (typed to_binding (stored Value.binding o) e ≡ done e' o) × Shows e' r
        by_cases none e s = (e, refl, s)
        by_cases (some b) e s = (e, refl, s)

    pub token_binding-Does : (token : Address) → Does (token_binding token) r (r.binding token) r
    unfolding token_binding
    token_binding-Does token = elim (Option-cases (r.binding token)) [
      | inl missing ↦ if_stored-missing _ _ _ (rw missing refl) (rw missing (Does-pure none r))
      | inr (b, present) ↦
          if_stored-present _ _ _ (rw present refl)
            (Does-bind _ (touch-Does _) (read_binding-Does token))
    ]

    pub is_token_bound-Does :
        (token : Address) → Does (is_token_bound token) r (is_some (r.binding token)) r
    unfolding is_token_bound
    is_token_bound-Does token = Does-bind _ (token_binding-Does token) (Does-pure _ r)

    pub is_frozen-Does :
        (token account : Address) → Does (is_frozen token account) r (r.frozen token account) r
    unfolding is_frozen
    is_frozen-Does token account = elim (Bool-cases (r.frozen token account)) [
      | inl frozen ↦
          if_stored-present _ _ _ (rw frozen refl)
            (rw frozen (Does-bind _ (touch-Does _) (Does-pure true r)))
      | inr free ↦ if_stored-missing _ _ _ (rw free refl) (rw free (Does-pure false r))
    ]
