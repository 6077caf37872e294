-- ===== src/Tests/Deploy.antt =====
-- A bring-up of one token with a policy that is already deployed.
use safeguard_hooks.Prelude.{
  ℕ, ◌+◌, String, ◌≡◌, refl, Bool, true, false, Option, none, some, List, [], ◌∷◌, map, Result, ok,
  err, if◌then◌else◌, ltb,
}
use safeguard_hooks.Cli.Text.{lines, last_lines, last_nonempty}
use safeguard_hooks.Cli.Arguments.{deploy_args, is_stellar_address, parse_deployed_id}
use safeguard_hooks.Cli.Outcome.{RunOutcome, interpret, value}
use safeguard_hooks.Cli.Revert.{decode_contract_error, decode_lines}
use safeguard_hooks.Cli.Text.{after}
use safeguard_hooks.Cli.Step.{Step, return, ◌>>=◌, for_each}
use safeguard_hooks.Cli.Config.{Config}
use safeguard_hooks.Cli.Deploy.{
  as_policy, save_if, send_raw, invoke, bind_tokens, run_lifecycle, run_deploy,
}
use safeguard_hooks.Cli.Deploy.Plan.{hooks_acts, plan, run_deploy_lem}
use text.Mathlib.Text.{◌==◌ as str_eq}
use safeguard_hooks.Host.Simple.{Simple}
use safeguard_hooks.ComplianceHooks.Transition.{State}
use safeguard_hooks.ComplianceHooks.Audit.{fresh}
use safeguard_hooks.ComplianceHooks.Setup.{Answered, IsSetUp}
use safeguard_hooks.Cli.Interface.{command, decoded}
use safeguard_hooks.Cli.Deploy.BringUp.{commands, calls, bring_up_lem}
use safeguard_hooks.Tests.{world}
use safeguard_hooks.Cli.Deploy.Prefix.{Fails, run_deploy-Fails}
use safeguard_hooks.Cli.Deploy.Acts.{Act, after_all}
use safeguard_hooks.Cli.Deploy.Outputs.{Prints}
use safeguard_hooks.Cli.Deploy.Steps.{Uses}
use safeguard_hooks.Tests.Cli.{deploy_output, record_of}

-- The state counts the commands; each prints the id of a contract.
abbrev runner : List String → ℕ → Result String RunOutcome × ℕ
runner args n = (ok (record { ok = true; stdout = deploy_output; stderr = "" }), n + 1)

abbrev keep : Config → String → Step ℕ (Unit {0})
keep config path = return tt

abbrev no_text : Option String
no_text = none

abbrev there : String → Bool
there path = true

abbrev silent : String → ℕ → ℕ
silent line n = n

-- Deploy, initialize, configure, bind: four commands.
four_commands :
    run_deploy runner there keep silent record_of none "admin" "hooks.wasm" none none
      (some "C9")
      false
      none
      0
    ≡ (ok tt, 4)
unfolding run_deploy run_lifecycle bind_tokens send_raw invoke interpret value parse_deployed_id
    last_lines last_nonempty lines ◌>>=◌ for_each
four_commands = refl

run_deploy_lem_example :
    (hooks_id : String) × (policy : Option String) × (is_stellar_address hooks_id ≡ true)
    × Prints runner (deploy_args "hooks.wasm" "admin" "local" []) 0 hooks_id
    × Uses runner record_of "admin" no_text no_text
        (some "C9")
        false
        policy
        (after_all runner there keep silent (hooks_acts record_of "admin" "hooks.wasm" hooks_id) 0)
    × (save_if runner there keep silent no_text
          (record record_of {
            hooks_contract_id = hooks_id;
            policy = as_policy policy;
            sac_passthrough = true;
          })
          (after_all runner there keep silent
            (plan record_of "admin" "hooks.wasm" none none (some "C9") false true hooks_id policy)
            0)
        ≡ (ok tt, 4))
run_deploy_lem_example =
    run_deploy_lem runner there keep silent record_of none "admin" "hooks.wasm" none none
      (some "C9") false none 0 4 four_commands

-- The third command, `set_config`, is refused.
abbrev tiring : List String → ℕ → Result String RunOutcome × ℕ
tiring args n = (ok (record { ok = ltb n 2; stdout = deploy_output; stderr = "refused" }), n + 1)

-- It is the last one that is sent.
three_commands :
    run_deploy tiring there keep silent record_of none "admin" "hooks.wasm" none none
      (some "C9")
      false
      none
      0
    ≡ (err "refused", 3)
unfolding run_deploy run_lifecycle bind_tokens send_raw invoke interpret value parse_deployed_id
    last_lines last_nonempty lines ◌>>=◌ for_each decode_contract_error decode_lines after
three_commands = refl

run_deploy-Fails_example :
    Fails tiring there keep silent record_of none "admin" "hooks.wasm" none none
      (some "C9")
      false
      true
      0
      "refused"
      3
run_deploy-Fails_example =
    run_deploy-Fails tiring there keep silent record_of none "admin" "hooks.wasm" none none
      (some "C9") false none 0 "refused" 3 three_commands

-- The addresses of the record, read as those of the small host.
abbrev read : String → ℕ
read name = if str_eq name "G1" then 1 else if str_eq name "C5" then 5 else 8

lifecycle_run :
    run_lifecycle runner there keep silent record_of "admin" "C1" none true 0 ≡ (ok tt, 3)
unfolding run_lifecycle bind_tokens invoke interpret value last_nonempty lines ◌>>=◌ for_each
lifecycle_run = refl

bring_up_lem_example :
    (acts : List Act) × (3 ≡ after_all runner there keep silent acts 0)
    × (commands acts ≡ map (command "admin" "C1" "local") (calls record_of none true))
    × (s : State) × Answered
        (λ _. world)
        0
        (map (decoded read) (calls record_of none true))
        (fresh world)
        s
    × IsSetUp 1 (record { policy = none; sac_passthrough = true }) ((5, some 8) ∷ []) s
bring_up_lem_example =
    bring_up_lem read runner there keep silent record_of "admin" "C1" none true 0 3 lifecycle_run
      (λ _. world) (λ n. refl) world
