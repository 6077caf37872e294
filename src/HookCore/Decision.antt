-- ===== src/HookCore/Decision.antt =====
-- crates/hook-core/src/decision.rs: the outcome of an evaluation.
use safeguard_hooks.Prelude.{Bool, true, false, Option, none, some}
use safeguard_hooks.HookCore.Reason.{RejectionReason}

pub data ComplianceDecision : Type 0 where
  allow : ComplianceDecision
  deny : RejectionReason → ComplianceDecision

unfoldable pub is_allowed : ComplianceDecision → Bool
is_allowed allow = true
is_allowed (deny _) = false

unfoldable pub reason : ComplianceDecision → Option RejectionReason
reason allow = none
reason (deny r) = some r

unfoldable pub and_then : ComplianceDecision → ComplianceDecision → ComplianceDecision
and_then (deny r) next = deny r
and_then allow next = next
