-- ===== src/Tests/Limits.antt =====
-- A call that panics, the calls of an evaluation, and an error that is read back.
use safeguard_hooks.Prelude.{length, ◌≤◌, ◌≡◌, ◌↔◌, refl, false, [], ◌∷◌}
use safeguard_hooks.HookCore.Operation.{Operation}
use safeguard_hooks.HookCore.Decision.{ComplianceDecision}
use safeguard_hooks.Host.Run.{done, panicked}
use safeguard_hooks.Host.Simple.{World, Ledger, Simple}
use safeguard_hooks.Storage.Registry.{Shows}
use safeguard_hooks.Compliance.Evaluator.{evaluate}
use safeguard_hooks.Compliance.Evaluator.Questions.{Asked}
use safeguard_hooks.Compliance.Evaluator.Budget.{planned, evaluate-budget}
use safeguard_hooks.ComplianceHooks.Invoke.{invoke}
use safeguard_hooks.ComplianceHooks.Transition.{State, freeze}
use safeguard_hooks.ComplianceHooks.Returns.{Stops, panics_iff}
use safeguard_hooks.Cli.Decimal.{display}
use safeguard_hooks.Cli.Text.{after}
use safeguard_hooks.Cli.Text.Lines.{unlines}
use safeguard_hooks.Cli.Revert.{decode_contract_error}
use safeguard_hooks.Cli.Revert.RoundTrip.{error_text, bounded_code, decode-error_text}
use safeguard_hooks.Tests.{world, deployment, ledger_of, ledger_of-Shows}

-- Nobody signs.
abbrev unsigned : State
unsigned = record deployment { outside = record world { signs = λ a. false } }

panics_iff_example :
    (invoke (freeze 5 20) (ledger_of unsigned) ≡ panicked) ↔ Stops unsigned (freeze 5 20)
panics_iff_example =
    panics_iff unsigned (freeze 5 20) (ledger_of unsigned) (ledger_of-Shows unsigned)

evaluate-budget_example :
    (decision : ComplianceDecision) × (e' : Ledger) × (w : World) × (evaluate 5
        Operation.transfer_from
        (7 ∷ 20 ∷ 40 ∷ [])
        (ledger_of deployment)
      ≡ done e' decision)
    × Shows e' (record deployment { outside = w })
    × Asked (planned deployment 5 Operation.transfer_from (7 ∷ 20 ∷ 40 ∷ [])) world w
    × (length (planned deployment 5 Operation.transfer_from (7 ∷ 20 ∷ 40 ∷ [])) ≤ 5)
evaluate-budget_example =
    evaluate-budget deployment 5 Operation.transfer_from (7 ∷ 20 ∷ 40 ∷ []) (ledger_of deployment)
      (ledger_of-Shows deployment)

decode-error_text_example :
    decode_contract_error "simulating\nHostError: Error(Contract, #4)\nsee the log" ≡ bounded_code 4
unfolding error_text after unlines display
decode-error_text_example =
    decode-error_text ("simulating" ∷ []) "HostError: " 4 "\nsee the log" ((refl, refl), tt) refl
      refl
