-- ===== src/Storage/Entries/Puts.antt =====
-- The encoding of a registry of crates/storage, with one entry put in place.
use safeguard_hooks.Prelude.{ℕ, ◌≡◌, refl, Bool, Option, some, arith}
use safeguard_hooks.Host.{Value, put}
use safeguard_hooks.Storage.Keys.{DataKey, ComplianceConfig, TokenBinding}
use safeguard_hooks.Storage.Registry.{
  Registry, stored, flagged, instances_of, persistents_of, assign, assign_pair,
}

module _ {A W : Type 0} (d : Discrete A) (r : Registry A W) where
  pub put_admin :
      (a : A) (k : DataKey A)
      → put d (instances_of r) DataKey.admin (some (Value.address a)) k
        ≡ instances_of (record r { admin = some a }) k
  put_admin a DataKey.admin = refl
  put_admin a _ = refl

  pub put_config :
      (c : ComplianceConfig A) (k : DataKey A)
      → put d (instances_of r) DataKey.config (some (Value.config c)) k
        ≡ instances_of (record r { config = some c }) k
  put_config c DataKey.config = refl
  put_config c _ = refl

  pub put_config_version :
      (n : ℕ) (k : DataKey A)
      → put d (instances_of r) DataKey.config_version (some (Value.number n)) k
        ≡ instances_of (record r { config_version = some n }) k
  put_config_version n DataKey.config_version = refl
  put_config_version n _ = refl

  pub put_version :
      (n : ℕ) (k : DataKey A)
      → put d (instances_of r) DataKey.version (some (Value.number n)) k
        ≡ instances_of (record r { version = some n }) k
  put_version n DataKey.version = refl
  put_version n _ = refl

  pub put_binding :
      (t : A) (o : Option (TokenBinding A)) (k : DataKey A)
      → put d (persistents_of r) (DataKey.token_binding t) (stored Value.binding o) k
        ≡ persistents_of (record r { binding = assign d r.binding t o }) k
  put_binding t o (DataKey.token_binding u) = ground arith
  put_binding t o _ = refl

  pub put-freeze :
      (t a : A) (b : Bool) (k : DataKey A)
      → put d (persistents_of r) (DataKey.freeze t a) (flagged b) k
        ≡ persistents_of (record r { frozen = assign_pair d r.frozen t a b }) k
  put-freeze t a b (DataKey.freeze u c) = ground arith
  put-freeze t a b _ = refl
