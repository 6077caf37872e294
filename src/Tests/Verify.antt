-- ===== src/Tests/Verify.antt =====
-- A verification of a deployment that answers `true` to everything.
use safeguard_hooks.Prelude.{
  String, ◌≡◌, ◌↔◌, refl, true, Option, none, List, [], ◌∷◌, Result, ok, err, All,
}
use safeguard_hooks.Cli.Arguments.{view_args}
use safeguard_hooks.Cli.Outcome.{RunOutcome, GateOutcome, denied, view}
use safeguard_hooks.Cli.Checks.{Status, probe_check, sample_check, check, pass, fail}
use safeguard_hooks.Cli.Verify.{verify, ◌>>=◌}
use safeguard_hooks.Cli.Verify.ReadOnly.{verify_reads}
use safeguard_hooks.Cli.Verify.Verdicts.{Decided, probe_check_iff, sample_check_iff}
use safeguard_hooks.HookCore.Reason.{unbound_token, policy_denied}
use safeguard_hooks.Cli.Revert.{rejection}
use safeguard_hooks.Tests.Cli.{record_of}

-- The state is the list of the commands that were run.
abbrev Trace : Type 0
Trace = List (List String)

abbrev runner : List String → Trace → Result String RunOutcome × Trace
runner args trace = (ok (record { ok = true; stdout = "true"; stderr = "" }), args ∷ trace)

abbrev down : List String → Trace → Result String RunOutcome × Trace
down args trace = (err "no stellar binary", args ∷ trace)

abbrev quoted : String → String
quoted s = s

abbrev no_policy : String → Option String
no_policy s = none

abbrev IsView : List String → Type 0
IsView argv =
    (func : String) × (params : List (String × String)) × (argv
      ≡ view_args "G9" record_of.hooks_contract_id record_of.network func params)

-- A contract that cannot be reached is reported so, and asked nothing else.
unreachable : verify quoted no_policy down record_of "G9" none [] ≡ (
  check fail "contract reachable" "no stellar binary" ∷ [],
  view_args "G9" "C0" "local" "initialized" [] ∷ [],
)
unfolding verify view ◌>>=◌
unreachable = refl

verify_reads_example : All IsView (verify quoted no_policy runner record_of "G9" none []).1
verify_reads_example =
    verify_reads quoted no_policy runner record_of "G9" (All IsView)
      (λ func params s h. ((func, params, refl), h)) none [] tt

probe_check_iff_example :
    (◌≡◌ {A = Status}
      (probe_check quoted no_policy "G1" (ok (denied (rejection unbound_token)))).status
      pass)
    ↔ (◌≡◌ {A = Result String GateOutcome}
        (ok (denied (rejection unbound_token)))
        (ok (denied (rejection unbound_token))))
probe_check_iff_example =
    probe_check_iff quoted no_policy "G1" (ok (denied (rejection unbound_token)))

sample_check_iff_example :
    (◌≡◌ {A = Status}
      (sample_check quoted no_policy "G7" "usd" (ok (denied (rejection policy_denied)))).status
      pass)
    ↔ Decided quoted no_policy (ok (denied (rejection policy_denied)))
sample_check_iff_example =
    sample_check_iff quoted no_policy "G7" "usd" (ok (denied (rejection policy_denied)))
