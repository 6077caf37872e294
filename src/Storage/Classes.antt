-- ===== src/Storage/Classes.antt =====
-- crates/storage/src/keys.rs: every key lives in the storage class that it names.
use safeguard_hooks.Prelude.{◌≡◌, refl, true, is_some}
use safeguard_hooks.Storage.Keys.{DataKey, class}
use safeguard_hooks.Storage.Registry.{Registry, instances_of, persistents_of}

module _ {A W : Type 0} (r : Registry A W) where
  pub class_of_stored :
      (k : DataKey A)
      → (is_some (instances_of r k) ≡ true → class k ≡ "instance")
        × (is_some (persistents_of r k) ≡ true → class k ≡ "persistent")
  unfolding class
  class_of_stored DataKey.admin = (λ _. refl, λ h. cc)
  class_of_stored DataKey.config = (λ _. refl, λ h. cc)
  class_of_stored DataKey.config_version = (λ _. refl, λ h. cc)
  class_of_stored DataKey.version = (λ _. refl, λ h. cc)
  class_of_stored (DataKey.token_binding t) = (λ h. cc, λ _. refl)
  class_of_stored (DataKey.freeze t a) = (λ h. cc, λ _. refl)
