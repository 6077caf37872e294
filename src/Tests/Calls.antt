-- ===== src/Tests/Calls.antt =====
-- Runs of the entry points.
use native.Mathlib.Decide.{ℕ_discrete}
use safeguard_hooks.Prelude.{◌≡◌, ◌⊎◌, refl, true, ◌&&◌, some, [], ◌∷◌, ok, same, if◌then◌else◌}
use safeguard_hooks.Host.Run.{done}
use safeguard_hooks.Host.Simple.{Ledger, Simple}
use safeguard_hooks.Storage.Registry.{Shows, Does}
use safeguard_hooks.Events.Kinds.{account_frozen}
use safeguard_hooks.ComplianceHooks.{
  Reply, admin, token_is_bound, initialized, state_version, config, config_version, is_frozen,
}
use safeguard_hooks.ComplianceHooks.Invoke.{invoke}
use safeguard_hooks.ComplianceHooks.Transition.{State, freeze, returns, transition}
use safeguard_hooks.ComplianceHooks.Refines.{Meets}
use safeguard_hooks.ComplianceHooks.Refines.Calls.{invoke-Meets, reads_tell}
use safeguard_hooks.ComplianceHooks.Effects.Posts.{ok_means}
use safeguard_hooks.ComplianceHooks.Authority.{
  Agrees, Approved, FlagMoves, change_needs_admin, admin_stays, freeze_isolated,
}
use safeguard_hooks.ComplianceHooks.Redundant.{redundant_keeps}
use safeguard_hooks.Tests.{deployment, ledger_of, ledger_of-Shows, returned}

abbrev pub refrozen : State
refrozen = record deployment {
  frozen =
      λ t a. if same ℕ_discrete 5 t && same ℕ_discrete 20 a then true else deployment.frozen t a;
  log = account_frozen 5 20 ∷ [];
}

invoke-Meets_example : Meets (invoke (freeze 5 20)) deployment (returns (ok tt) refrozen)
unfolding transition ℕ_discrete
invoke-Meets_example = invoke-Meets deployment (freeze 5 20)

pub freeze_run : (e' : Ledger) × (invoke (freeze 5 20) (ledger_of deployment) ≡ done e' (ok tt))
unfolding transition ℕ_discrete
freeze_run =
    let (e', ran, _) =
      (returned (invoke-Meets deployment (freeze 5 20))).ends (ledger_of deployment)
        (ledger_of-Shows deployment) in
    (e', ran)

reads_tell_example :
    Does admin deployment (some 1) deployment
    × Does (token_is_bound 5) deployment true deployment
    × Does initialized deployment true deployment
    × Does state_version deployment 1 deployment
    × Does config deployment (some (record { policy = some 9; sac_passthrough = true })) deployment
    × Does config_version deployment 1 deployment
    × Does (is_frozen 5 30) deployment true deployment
reads_tell_example = reads_tell deployment 5 30

ok_means_example : (s : State) × Shows freeze_run.0 s × (s.frozen 5 20 ≡ true)
ok_means_example =
    ok_means deployment (freeze 5 20) (ledger_of deployment) freeze_run.0
      (ledger_of-Shows deployment) freeze_run.1

change_needs_admin_example :
    (s : State) × Shows freeze_run.0 s
    × (Agrees deployment s ⊎ ((◌≡◌ {A = Reply} (ok tt) (ok tt)) × Approved deployment s.admin))
change_needs_admin_example =
    change_needs_admin deployment (freeze 5 20) (ledger_of deployment) freeze_run.0 (ok tt)
      (ledger_of-Shows deployment) freeze_run.1

admin_stays_example : (s : State) × Shows freeze_run.0 s × (s.admin ≡ some 1)
admin_stays_example =
    admin_stays deployment (freeze 5 20) (ledger_of deployment) freeze_run.0 (ok tt) 1
      (ledger_of-Shows deployment) refl freeze_run.1

freeze_isolated_example :
    (s : State) × Shows freeze_run.0 s × FlagMoves deployment s (freeze 5 20) 5 30
freeze_isolated_example =
    freeze_isolated deployment (freeze 5 20) (ledger_of deployment) freeze_run.0 (ok tt) 5 30
      (ledger_of-Shows deployment) freeze_run.1

-- Freezing a frozen account once more.
refreeze_run : (e' : Ledger) × (invoke (freeze 5 30) (ledger_of deployment) ≡ done e' (ok tt))
unfolding transition ℕ_discrete
refreeze_run =
    let (e', ran, _) =
      (returned (invoke-Meets deployment (freeze 5 30))).ends (ledger_of deployment)
        (ledger_of-Shows deployment) in
    (e', ran)

redundant_keeps_example : (s : State) × Shows refreeze_run.0 s × Agrees deployment s
redundant_keeps_example =
    redundant_keeps deployment (freeze 5 30) (ledger_of deployment) refreeze_run.0 (ok tt)
      (ledger_of-Shows deployment) refl refreeze_run.1
