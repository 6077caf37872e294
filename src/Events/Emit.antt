-- ===== src/Events/Emit.antt =====
-- crates/events/src/lib.rs: one publishing function for each event.
use safeguard_hooks.Prelude.{Bool, Option}
use safeguard_hooks.Host.{Host}
use safeguard_hooks.Host.Run.{M}
use safeguard_hooks.Host.Calls.{publish}
use safeguard_hooks.Events.Kinds.{
  initialized, account_frozen, account_unfrozen, token_bound, token_unbound,
  compliance_config_changed,
}

module _ ⦃H : Host⦄ where
  open H use {Address}

  unfoldable pub emit_initialized : Address → M (Unit {0})
  emit_initialized admin = publish (initialized admin)

  unfoldable pub emit_account_frozen : Address → Address → M (Unit {0})
  emit_account_frozen token account = publish (account_frozen token account)

  unfoldable pub emit_account_unfrozen : Address → Address → M (Unit {0})
  emit_account_unfrozen token account = publish (account_unfrozen token account)

  unfoldable pub emit_token_bound : Address → M (Unit {0})
  emit_token_bound token = publish (token_bound token)

  unfoldable pub emit_token_unbound : Address → M (Unit {0})
  emit_token_unbound token = publish (token_unbound token)

  unfoldable pub emit_compliance_config_changed : Option Address → Bool → M (Unit {0})
  emit_compliance_config_changed policy sac_passthrough =
      publish (compliance_config_changed policy sac_passthrough)
