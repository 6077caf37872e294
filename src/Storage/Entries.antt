-- ===== src/Storage/Entries.antt =====
-- crates/storage/src/{lib, admin, bindings, config, freeze, versions}.rs: reads and writes of the
-- contract's state. No function here authorizes its caller.
pub mod Reads
pub mod Puts
pub mod Writes
pub mod Lifetimes
use safeguard_hooks.Prelude.{
  ℕ, ◌+◌, ◌-◌, ◌*◌, Bool, true, false, Option, none, some, is_some, unwrap_or, ◌==◌, u32_max,
  if◌then◌else◌,
}
use safeguard_hooks.Host.{Host, Value}
use safeguard_hooks.Host.Run.{M, done, pure, panic, ◌>>=◌, ◌>>◌}
use safeguard_hooks.Storage.Keys.{DataKey, ComplianceConfig, TokenBinding}

-- `DAY_IN_LEDGERS`, `TTL_EXTEND_TO`, `TTL_THRESHOLD`, `VERSION`
abbrev pub day_in_ledgers : ℕ
day_in_ledgers = 17280

abbrev pub ttl_extend_to : ℕ
ttl_extend_to = 30 * day_in_ledgers

abbrev pub ttl_threshold : ℕ
ttl_threshold = ttl_extend_to - day_in_ledgers

abbrev pub current_version : ℕ
current_version = 1

-- The conversions of a stored value to the type at which it is read.
module _ {A : Type 0} where
  abbrev pub to_address : Value A → Option A
  to_address (Value.address a) = some a
  to_address _ = none

  abbrev pub to_config : Value A → Option (ComplianceConfig A)
  to_config (Value.config c) = some c
  to_config _ = none

  abbrev pub to_number : Value A → Option ℕ
  to_number (Value.number n) = some n
  to_number _ = none

  abbrev pub to_binding : Value A → Option (TokenBinding A)
  to_binding (Value.binding b) = some b
  to_binding _ = none

module _ ⦃H : Host⦄ where
  open H use {
    Address, Env, instance_has, instance_get, instance_set, persistent_has, persistent_get,
    persistent_set, persistent_remove, extend_ttl,
  }

  -- `get` at a type: a missing entry is `None`, and a value of another type panics.
  abbrev pub typed :
      {B : Type 0} → (Value Address → Option B) → Option (Value Address) → M (Option B)
  typed convert none = pure none
  typed convert (some v) = elim (convert v) [ none ↦ panic | some b ↦ pure (some b) ]

  -- A guarded read of the instance storage.
  abbrev pub read_instance :
      {B : Type 0} → (Value Address → Option B) → DataKey Address → M (Option B)
  read_instance convert key e =
      if instance_has e key then typed convert (instance_get e key) e else done e none

  -- `if e.storage().persistent().has(&key) { … } else { … }`
  abbrev pub if_stored : {B : Type 0} → DataKey Address → M B → M B → M B
  if_stored key m n e = if persistent_has e key then m e else n e

  renew : DataKey Address → M (Unit {0})
  renew key e = done (extend_ttl e key ttl_threshold ttl_extend_to) tt

  pub touch : DataKey Address → M (Unit {0})
  unfolding renew
  touch key = if_stored key (renew key) (pure tt)

  pub admin : M (Option Address)
  admin = read_instance to_address DataKey.admin

  pub set_admin : Address → M (Unit {0})
  set_admin a e = done (instance_set e DataKey.admin (Value.address a)) tt

  pub version : M (Option ℕ)
  version = read_instance to_number DataKey.version

  pub set_version : ℕ → M (Unit {0})
  set_version v e = done (instance_set e DataKey.version (Value.number v)) tt

  pub compliance_config : M (Option (ComplianceConfig Address))
  compliance_config = read_instance to_config DataKey.config

  write_config : ComplianceConfig Address → M (Unit {0})
  write_config config e = done (instance_set e DataKey.config (Value.config config)) tt

  pub set_compliance_config : ComplianceConfig Address → M (Unit {0})
  unfolding write_config
  set_compliance_config config = do
    write_config config
    stamp ← version
    if is_some stamp then pure tt else set_version current_version

  pub config_version : M (Option ℕ)
  config_version = read_instance to_number DataKey.config_version

  write_config_version : ℕ → M (Unit {0})
  write_config_version n e = done (instance_set e DataKey.config_version (Value.number n)) tt

  -- `+ 1` on a `u32`, with overflow checks on.
  pub bump_config_version : M (Unit {0})
  bump_config_version = do
    current ← config_version
    if unwrap_or current 0 == u32_max then panic else write_config_version (unwrap_or current 0 + 1)

  read_binding : DataKey Address → M (Option (TokenBinding Address))
  read_binding key e = typed to_binding (persistent_get e key) e

  pub token_binding : Address → M (Option (TokenBinding Address))
  unfolding read_binding
  token_binding token =
      let key = DataKey.token_binding token in
      if_stored key (touch key >> read_binding key) (pure none)

  pub is_token_bound : Address → M Bool
  is_token_bound token = do pure (is_some (← token_binding token))

  pub bind_token : Address → Option Address → M (Unit {0})
  bind_token token sac e =
      done (persistent_set e (DataKey.token_binding token) (Value.binding (record { sac = sac })))
        tt

  remove : DataKey Address → M (Unit {0})
  remove key e = done (persistent_remove e key) tt

  pub unbind_token : Address → M (Unit {0})
  unfolding remove
  unbind_token token = let key = DataKey.token_binding token in if_stored key (remove key) (pure tt)

  pub is_frozen : Address → Address → M Bool
  is_frozen token account =
      let key = DataKey.freeze token account in if_stored key (touch key >> pure true) (pure false)

  pub freeze_account : Address → Address → M (Unit {0})
  freeze_account token account e =
      done (persistent_set e (DataKey.freeze token account) (Value.flag true)) tt

  pub unfreeze_account : Address → Address → M (Unit {0})
  unfolding remove
  unfreeze_account token account =
      let key = DataKey.freeze token account in if_stored key (remove key) (pure tt)
