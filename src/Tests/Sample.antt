-- ===== src/Tests/Sample.antt =====
-- A deployment whose policy 9 runs the code of the sample policy, which blocks the account 40.
use native.Mathlib.Decide.{ℕ_discrete}
use safeguard_hooks.Prelude.{
  ℕ, ◌≡◌, ◌≢◌, ◌↔◌, Option, refl, ap, ◌∙◌, false, none, some, List, [], ◌∷◌, zip, All, ok,
  unwrap_or,
}
use safeguard_hooks.HookCore.Operation.{Operation, parties}
use safeguard_hooks.HookCore.Decision.{allow}
use safeguard_hooks.Host.{Answer, value, failed}
use safeguard_hooks.Host.Run.{done}
use safeguard_hooks.Host.Simple.{World, Ledger, Simple}
use safeguard_hooks.ComplianceHooks.Transition.{State, before_transfer}
use safeguard_hooks.ComplianceHooks.Invoke.{invoke}
use safeguard_hooks.ComplianceHooks.Setup.{last_binding}
use safeguard_hooks.SamplePolicy.Launch.{Asks, launch_iff}
use safeguard_hooks.Compliance.Evaluator.{evaluate}
use safeguard_hooks.PolicyClient.{policy_fn}
use safeguard_hooks.SamplePolicy.{constructor, is_authorized}
use safeguard_hooks.SamplePolicy.Gate.{Later, now, asked, MayPass, sample_allow_iff}
use safeguard_hooks.Tests.{deployment, ledger_of, ledger_of-Shows, world}

abbrev policy_says : List ℕ → Answer
policy_says (account ∷ token ∷ []) = value (
    unwrap_or (is_authorized ℕ_discrete (constructor ℕ_discrete (some 40) none) account token)
      false)
policy_says _ = failed

abbrev sampled : State
sampled = record deployment {
  config = some (record { policy = some 9; sac_passthrough = false });
  outside = record world { says = λ contract fn args. policy_says args };
}

-- Asking the policy does not change what it says.
says_stays : (v : World) → Later 9 sampled.outside v → v.says ≡ sampled.outside.says
says_stays v now = refl
says_stays _ (asked v account token later) = says_stays v later

sample_allow_iff_example :
    ((e' : Ledger) × (evaluate 5 Operation.transfer (20 ∷ 40 ∷ []) (ledger_of sampled)
        ≡ done e' allow))
    ↔ All (MayPass sampled.frozen 5 (some 40)) (zip (parties Operation.transfer) (20 ∷ 40 ∷ []))
unfolding parties
sample_allow_iff_example =
    sample_allow_iff sampled 5 Operation.transfer (20 ∷ 40 ∷ []) 9 (some 40) none
      (record { sac = some 8 }) (ledger_of sampled) (ledger_of-Shows sampled)
      (λ v account token b later returned.
        ap (λ f. f 9 policy_fn (account ∷ token ∷ [])) (says_stays v later)
        ∙ ap (λ o. value (unwrap_or o false)) returned)
      refl refl refl

-- The token 5 has been bound, and nothing else done since.
abbrev launched : State
launched = record sampled {
  binding = last_binding ((5, some 8) ∷ []);
  frozen = λ token account. false;
}

launch_iff_example :
    ((e' : Ledger) × (invoke (before_transfer 5 20 40) (ledger_of launched) ≡ done e' (ok tt)))
    ↔ All (λ who. ◌≢◌ {A = Option ℕ} (some 40) (some who)) (20 ∷ 40 ∷ [])
unfolding ℕ_discrete
launch_iff_example =
    launch_iff launched 1 9 (some 40) none ((5, some 8) ∷ []) (record { sac = some 8 })
      (before_transfer 5 20 40) Operation.transfer 5 (20 ∷ 40 ∷ []) (ledger_of launched)
      (record {
        owned = refl;
        configured = refl;
        current = refl;
        changed_once = refl;
        none_frozen = λ t x. refl;
        bound = λ t. refl;
      })
      refl (ledger_of-Shows launched)
      (λ v account token b later returned.
        ap (λ f. f 9 policy_fn (account ∷ token ∷ [])) (says_stays v later)
        ∙ ap (λ o. value (unwrap_or o false)) returned)
      Asks.to_transfer
