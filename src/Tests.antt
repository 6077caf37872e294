-- ===== src/Tests.antt =====
-- The contract on the small host of Host/Simple.antt: one configured deployment, and a run of each
-- kind on it.
pub mod Gates
pub mod Calls
pub mod History
pub mod Cli
pub mod Deploy
pub mod Verify
pub mod App
pub mod Smoke
pub mod Limits
pub mod Main
pub mod Sample
use native.Mathlib.Decide.{ℕ_discrete}
use safeguard_hooks.Prelude.{
  ℕ, ◌≡◌, refl, Bool, true, false, ◌&&◌, Option, none, some, List, [], ◌∷◌, ok, err, String, ◌==◌,
  if◌then◌else◌,
}
use safeguard_hooks.HookCore.Operation.{Operation}
use safeguard_hooks.HookCore.Decision.{ComplianceDecision, allow}
use safeguard_hooks.Host.{Host, Answer, value, failed, View}
use safeguard_hooks.Host.Run.{M, done}
use safeguard_hooks.Host.Simple.{World, Ledger, Simple}
use safeguard_hooks.Storage.Keys.{DataKey, ComplianceConfig, TokenBinding}
use safeguard_hooks.Storage.Registry.{Registry, Shows, Does, encode}
use safeguard_hooks.ComplianceHooks.{Reply}
use safeguard_hooks.ComplianceHooks.Transition.{State, Outcome, returns}
use safeguard_hooks.ComplianceHooks.Refines.{Meets, returning}

-- The policy 9 blocks the account 40, the SAC 8 authorizes all, and nobody else answers. The
-- admin 1 signs.
abbrev pub answers : ℕ → List ℕ → Answer
answers contract (account ∷ _) =
    if contract == 9
    then value (if account == 40 then false else true)
    else if contract == 8
    then value true
    else failed
answers contract [] = failed

abbrev pub world : World
world = record { signs = λ a. a == 1; says = λ contract fn args. answers contract args; calls = 0 }

-- The admin 1, the policy 9, the token 5 bound to the SAC 8, and the account 30 frozen on it.
abbrev pub deployment : State
deployment = record {
  admin = some 1;
  config = some (record { policy = some 9; sac_passthrough = true });
  config_version = some 1;
  version = some 1;
  binding = λ t. if t == 5 then some (record { sac = some 8 }) else none;
  frozen = λ t a. (t == 5) && (a == 30);
  log = [];
  outside = world;
}

abbrev pub ledger_of : State → Ledger
ledger_of r = record { view = encode r; ttls = λ _. 0 }

pub ledger_of-Shows : (r : State) → Shows (ledger_of r) r
ledger_of-Shows r = record { seen = refl }

pub returned :
    {m : M Reply} {r s : State} {reply : Reply} → Meets m r (returns reply s) → Does m r reply s
returned (returning d) = d
