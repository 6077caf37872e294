-- ===== src/ComplianceHooks/Audit/Classes.antt =====
-- Which storage class of the host the contract keeps its entries in.
use safeguard_hooks.Prelude.{◌≡◌, true, ap, ◌∙◌, sym, is_some}
use safeguard_hooks.Host.{Host}
use safeguard_hooks.Storage.Keys.{DataKey, class}
use safeguard_hooks.Storage.Classes.{class_of_stored}
use safeguard_hooks.ComplianceHooks.Audit.{Reached}
use safeguard_hooks.ComplianceHooks.Audit.WellFormed.{Reached-WellFormed}

module _ ⦃H : Host⦄ where
  open H use {Address, Env}

  -- In every environment that a deployed contract reaches, a key that has an entry in the instance
  -- or in the persistent storage has it in the class that `DataKey::class` names.
  pub Reached-class :
      (e : Env) (k : DataKey Address)
      → Reached e
      → (H.instance_has e k ≡ true → class k ≡ "instance")
        × (H.persistent_has e k ≡ true → class k ≡ "persistent")
  Reached-class e k reached =
      let (r, shown, _) = Reached-WellFormed e reached in
      let (instance_class, persistent_class) = class_of_stored r k in
      (
        λ h.
            instance_class (
              sym (ap (λ v. is_some (v.instances k)) shown.seen)
              ∙ sym (H.instance_has_lem e k)
              ∙ h),
        λ h. persistent_class (
            sym (ap (λ v. is_some (v.persistents k)) shown.seen)
            ∙ sym (H.persistent_has_lem e k)
            ∙ h),
      )
