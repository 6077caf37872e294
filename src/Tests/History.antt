-- ===== src/Tests/History.antt =====
-- A deployment followed for a call, the codes and the lifetimes.
use native.Mathlib.Decide.{ℕ_discrete}
use safeguard_hooks.Prelude.{ℕ, ◌≡◌, false, ◌≢◌, inr, none, refl, ◌↔◌, ◌≤◌, true, some, ok, err}
use safeguard_hooks.HookCore.Reason.{
  RejectionReason, account_frozen, policy_denied, code, from_code,
}
use safeguard_hooks.HookCore.Decision.{deny}
use safeguard_hooks.HookCore.Codes.{from_code_iff}
use safeguard_hooks.Host.Run.{done}
use safeguard_hooks.Host.Simple.{Ledger, Simple}
use safeguard_hooks.Storage.Keys.{DataKey, class}
use safeguard_hooks.Storage.Entries
use safeguard_hooks.Storage.Entries.{ttl_threshold}
use safeguard_hooks.Storage.Entries.Lifetimes.{is_frozen_renews}
use safeguard_hooks.Storage.Entries.Reads.{is_frozen-Does}
use safeguard_hooks.Storage.Registry.{Shows}
use safeguard_hooks.ComplianceHooks.{ContractError, enforce, error_code}
use safeguard_hooks.ComplianceHooks.Errors.{enforce_code_iff}
use safeguard_hooks.ComplianceHooks.Invoke.{invoke}
use safeguard_hooks.ComplianceHooks.Transition.{
  State, initialize, set_config, before_transfer, transition,
}
use safeguard_hooks.ComplianceHooks.Frozen.{Unthawed, frozen_until_unfrozen}
use safeguard_hooks.ComplianceHooks.Refines.Calls.{invoke-Meets}
use safeguard_hooks.ComplianceHooks.Audit.{Reached, deployed, called, fresh}
use safeguard_hooks.ComplianceHooks.Audit.Replay.{Audits, Reached-Audits}
use safeguard_hooks.ComplianceHooks.Audit.WellFormed.{WellFormed, Reached-WellFormed}
use safeguard_hooks.ComplianceHooks.Audit.Classes.{Reached-class}
use safeguard_hooks.Tests.{world, deployment, ledger_of, ledger_of-Shows, returned}

-- A new contract, initialized by the admin 1.
initialize_run : (e' : Ledger) × (invoke (initialize 1) (ledger_of (fresh world)) ≡ done e' (ok tt))
unfolding transition ℕ_discrete
initialize_run =
    let (e', ran, _) =
      (returned (invoke-Meets (fresh world) (initialize 1))).ends (ledger_of (fresh world))
        (ledger_of-Shows (fresh world)) in
    (e', ran)

reached : Reached initialize_run.0
reached =
    called _ _ (initialize 1) (deployed _ world (ledger_of-Shows (fresh world))) initialize_run.1

Reached-Audits_example : (r : State) × Shows initialize_run.0 r × Audits r
Reached-Audits_example = Reached-Audits initialize_run.0 reached

Reached-WellFormed_example : (r : State) × Shows initialize_run.0 r × WellFormed r
Reached-WellFormed_example = Reached-WellFormed initialize_run.0 reached

abbrev admin_key : DataKey ℕ
admin_key = DataKey.admin

Reached-class_example :
    (Simple.instance_has initialize_run.0 admin_key ≡ true → class admin_key ≡ "instance")
    × (Simple.persistent_has initialize_run.0 admin_key ≡ true → class admin_key ≡ "persistent")
Reached-class_example = Reached-class initialize_run.0 admin_key reached

enforce_code_iff_example :
    ((x : ContractError) × (enforce (deny policy_denied) ≡ err x) × (error_code x ≡ 3))
    ↔ ((why : RejectionReason) × (deny policy_denied ≡ deny why) × (from_code 3 ≡ some why))
enforce_code_iff_example = enforce_code_iff (deny policy_denied) 3

from_code_iff_example : (from_code 4 ≡ some account_frozen) ↔ (code account_frozen ≡ 4)
from_code_iff_example = from_code_iff 4 account_frozen

frozen_read : (e' : Ledger) × (Entries.is_frozen 5 30 (ledger_of deployment) ≡ done e' true)
frozen_read =
    let (e', ran, _) =
      (is_frozen-Does deployment 5 30).ends (ledger_of deployment) (ledger_of-Shows deployment) in
    (e', ran)

is_frozen_renews_example : ttl_threshold ≤ Simple.ttl frozen_read.0 (DataKey.freeze 5 30)
is_frozen_renews_example = is_frozen_renews 5 30 (ledger_of deployment) frozen_read.0 frozen_read.1

-- The policy is rotated away.
rotation_run :
    (e' : Ledger) × (invoke (set_config none false) (ledger_of deployment) ≡ done e' (ok tt))
unfolding transition ℕ_discrete
rotation_run =
    let (e', ran, _) =
      (returned (invoke-Meets deployment (set_config none false))).ends (ledger_of deployment)
        (ledger_of-Shows deployment) in
    (e', ran)

frozen_until_unfrozen_example :
    ((s : State) × Shows rotation_run.0 s × (s.frozen 5 30 ≡ true))
    × (invoke (before_transfer 5 20 30) rotation_run.0 ≢ done rotation_run.0 (ok tt))
frozen_until_unfrozen_example =
    frozen_until_unfrozen deployment (ledger_of deployment) rotation_run.0 rotation_run.0 5 30
      (before_transfer 5 20 30) (ledger_of-Shows deployment) refl
      (Unthawed.called _ _ (set_config none false) Unthawed.still (λ p. cc) rotation_run.1)
      (refl, inr refl)
