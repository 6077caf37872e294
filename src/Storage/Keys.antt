-- ===== src/Storage/Keys.antt =====
-- crates/storage/src/keys.rs, and the two records that config.rs and bindings.rs store.
use mathlib.Core.Bool.{beq}
use safeguard_hooks.Prelude.{String, Bool, true, false, ◌&&◌, Option, none, same, option_eq}

module _ (A : Type 0) where
  -- `DataKey`, over a type of addresses.
  pub data DataKey : Type 0 where
    admin config config_version version : DataKey
    token_binding : A → DataKey
    freeze : A → A → DataKey

  pub record ComplianceConfig : Type 0 where
    pub policy : Option A
    pub sac_passthrough : Bool

  pub record TokenBinding : Type 0 where
    pub sac : Option A

-- `DataKey::class`
unfoldable pub class : {A : Type 0} → DataKey A → String
class DataKey.admin = "instance"
class DataKey.config = "instance"
class DataKey.config_version = "instance"
class DataKey.version = "instance"
class (DataKey.token_binding _) = "persistent"
class (DataKey.freeze _ _) = "persistent"

-- `ComplianceConfig::disabled`
abbrev pub disabled : {A : Type 0} → ComplianceConfig A
disabled = record { policy = none; sac_passthrough = false }

-- The equality that `ComplianceConfig` derives.
abbrev pub config_eq : {A : Type 0} → Discrete A → ComplianceConfig A → ComplianceConfig A → Bool
config_eq d a b = option_eq (same d) a.policy b.policy && beq a.sac_passthrough b.sac_passthrough

-- The equality that `DataKey` derives.
abbrev pub key_eq : {A : Type 0} → Discrete A → DataKey A → DataKey A → Bool
key_eq d DataKey.admin DataKey.admin = true
key_eq d DataKey.config DataKey.config = true
key_eq d DataKey.config_version DataKey.config_version = true
key_eq d DataKey.version DataKey.version = true
key_eq d (DataKey.token_binding t) (DataKey.token_binding u) = same d t u
key_eq d (DataKey.freeze t a) (DataKey.freeze u b) = same d t u && same d a b
key_eq d _ _ = false
