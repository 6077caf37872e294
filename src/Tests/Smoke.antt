-- ===== src/Tests/Smoke.antt =====
-- A verification that passes, against a deployment that answers as it should.
use text.Mathlib.Text.{◌==◌ as str_eq}
use safeguard_hooks.Prelude.{
  ℕ, ◌+◌, String, ◌≡◌, refl, true, false, Option, none, some, List, ◌∷◌, Result, ok, All, unwrap_or,
  if◌then◌else◌,
}
use safeguard_hooks.HookCore.Reason
use safeguard_hooks.Cli.Text.{lines, last_lines, last_nonempty, after}
use safeguard_hooks.Cli.Arguments.{view_args, is_stellar_address, network_list_args, address}
use safeguard_hooks.Cli.Revert.{decode_contract_error, decode_lines, from_code}
use safeguard_hooks.Cli.Outcome.{RunOutcome, combined, value, view, gate}
use safeguard_hooks.Cli.Step
use safeguard_hooks.Cli.Deploy.{ensure_network}
use safeguard_hooks.Cli.Verify
use safeguard_hooks.Cli.Checks.{unquote}
use safeguard_hooks.Cli.Verify.{gather, probe_checks, later_checks, verify}
use safeguard_hooks.Cli.Smoke.{valid, print_report, report_lines, run_verify}
use safeguard_hooks.Cli.Smoke.Exit.{Unfailed, run_verify_lem}
use safeguard_hooks.Tests.Cli.{record_of}

abbrev bound : List String → String
bound (_ ∷ token ∷ _) = if str_eq token "C5" then "true" else "false"
bound _ = "false"

abbrev reply : (func : String) → List String → RunOutcome
reply func params =
    if str_eq func "before_transfer"
    then record { ok = false; stdout = ""; stderr = "Error(Contract, #2)" }
    else record {
      ok = true;
      stdout =
          if str_eq func "token_is_bound"
          then bound params
          else if str_eq func "initialized"
          then "true"
          else if str_eq func "admin"
          then "\"G1\""
          else if str_eq func "config"
          then "{}"
          else "1";
      stderr = "";
    }

-- The state counts the commands.
abbrev runner : List String → ℕ → Result String RunOutcome × ℕ
runner (_ ∷ _ ∷ _ ∷ _ ∷ _ ∷ _ ∷ _ ∷ _ ∷ _ ∷ _ ∷ func ∷ params) n = (ok (reply func params), n + 1)
runner _ n = (ok (record { ok = true; stdout = "testnet\nlocal\n"; stderr = "" }), n + 1)

abbrev quoted : String → String
quoted s = s

abbrev no_policy : String → Option String
no_policy s = none

abbrev silent : String → ℕ → ℕ
silent line n = n

abbrev reader : Option String
reader = some "GABCDEFGHIJKLMNOPQRSTUVWXYZ234567ABCDEFGHIJKLMNOPQRSTUVW"

abbrev nobody : Option String
nobody = none

-- The network, the five reads, the token, and the two steps of the probe.
nine_commands : run_verify quoted no_policy runner silent record_of reader nobody 0 ≡ (ok tt, 9)
unfolding run_verify print_report report_lines ensure_network network_list_args verify later_checks
    probe_checks gather Verify.◌>>=◌ Step.◌>>=◌ view gate view_args is_stellar_address address lines
    last_lines last_nonempty value combined decode_contract_error decode_lines after from_code
    Reason.from_code Reason.name unquote
nine_commands = refl

run_verify_lem_example :
    (is_stellar_address (unwrap_or reader "G1") ≡ true)
    × (valid nobody ≡ true)
    × (t : ℕ) × (ensure_network runner record_of 0 ≡ (ok tt, t))
    × (let (checks, u) =
          verify quoted no_policy runner record_of (unwrap_or reader "G1") nobody t in
        All Unfailed checks × (9 ≡ print_report silent checks record_of (unwrap_or reader "G1") u))
run_verify_lem_example =
    run_verify_lem quoted no_policy runner silent record_of reader nobody 0 9 nine_commands
