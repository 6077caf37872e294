-- ===== src/HookCore/Context.antt =====
-- crates/hook-core/src/context.rs: what is being enforced, for one operation and for one party.
use safeguard_hooks.Prelude.{List, map}
use safeguard_hooks.HookCore.Party.{PartyRole}
use safeguard_hooks.HookCore.Operation.{Operation, parties}

pub record HookContext (T : Type 0) : Type 0 where
  pub token : T
  pub operation : Operation

pub record OperationContext : Type 0 where
  pub operation : Operation
  pub role : PartyRole

unfoldable pub operation_contexts : {T : Type 0} → HookContext T → List OperationContext
unfolding parties
operation_contexts ctx =
    map (λ role. record { operation = ctx.operation; role = role }) (parties ctx.operation)
