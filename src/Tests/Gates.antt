-- ===== src/Tests/Gates.antt =====
-- Runs of the evaluator.
use safeguard_hooks.Prelude.{zip, flat_map, ℕ, ◌≡◌, ◌↔◌, List, [], ◌∷◌}
use safeguard_hooks.HookCore.Operation.{Operation, parties}
use safeguard_hooks.HookCore.Reason.{account_frozen}
use safeguard_hooks.HookCore.Decision.{allow, deny}
use safeguard_hooks.Host.Run.{done}
use safeguard_hooks.Host.Simple.{Ledger, Simple}
use safeguard_hooks.Compliance.Evaluator.{evaluate}
use safeguard_hooks.Compliance.Evaluator.Checks.{judge, verdict}
use safeguard_hooks.Compliance.Evaluator.Gates.{Judges}
use safeguard_hooks.Compliance.Evaluator.Refines.{evaluate-Judges}
use safeguard_hooks.Compliance.Evaluator.Allows.{InScope, AllGranted, allow_iff}
use safeguard_hooks.Compliance.Evaluator.Denials.{Justified, denial-Justified}
use safeguard_hooks.Tests.{world, deployment, ledger_of, ledger_of-Shows}

abbrev transfer_parties : List ℕ
transfer_parties = 10 ∷ 20 ∷ []

-- Two clean accounts: four calls, to the policy and to the SAC for each.
evaluate-Judges_example :
    Judges
      (evaluate 5 Operation.transfer transfer_parties)
      deployment
      (allow, record world { calls = 4 })
unfolding verdict judge parties flat_map zip
evaluate-Judges_example = evaluate-Judges deployment 5 Operation.transfer transfer_parties

-- The first party is frozen: no call at all.
frozen_run :
    (e' : Ledger) × (evaluate 5 Operation.transfer (30 ∷ 20 ∷ []) (ledger_of deployment)
      ≡ done e' (deny account_frozen))
unfolding verdict judge parties flat_map zip
frozen_run =
    let (e', ran, _) =
      (evaluate-Judges deployment 5 Operation.transfer (30 ∷ 20 ∷ [])).ends (ledger_of deployment)
        (ledger_of-Shows deployment) in
    (e', ran)

allow_iff_example :
    ((e' : Ledger) × (evaluate 5 Operation.transfer transfer_parties (ledger_of deployment)
        ≡ done e' allow))
    ↔ InScope deployment 5 Operation.transfer transfer_parties
        (AllGranted deployment 5 Operation.transfer transfer_parties)
allow_iff_example =
    allow_iff deployment 5 Operation.transfer transfer_parties (ledger_of deployment)
      (ledger_of-Shows deployment)

denial-Justified_example : Justified deployment 5 Operation.transfer (30 ∷ 20 ∷ []) account_frozen
denial-Justified_example =
    denial-Justified deployment 5 Operation.transfer (30 ∷ 20 ∷ []) account_frozen
      (ledger_of deployment) frozen_run.0 (ledger_of-Shows deployment) frozen_run.1
