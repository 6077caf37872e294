-- ===== src/Events/Kinds.antt =====
-- crates/events/src/lib.rs: the event types, over a type of addresses.
use safeguard_hooks.Prelude.{Bool, Option}

pub data Event (A : Type 0) : Type 0 where
  initialized : (admin : A) → Event A
  account_frozen account_unfrozen : (token account : A) → Event A
  token_bound token_unbound : (token : A) → Event A
  compliance_config_changed : (policy : Option A) (sac_passthrough : Bool) → Event A
