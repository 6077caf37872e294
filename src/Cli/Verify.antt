-- ===== src/Cli/Verify.antt =====
-- cli/src/main.rs: `verify`, the read-only check of a live deployment.
pub mod ReadOnly
pub mod Verdicts
use Prim.Native.Char.{code}
use Prim.Native.String
use Prim.Native.String.{◌++◌ as ◌<>◌}
use text.Mathlib.Text.{◌==◌ as str_eq}
use safeguard_hooks.Prelude.{
  ℕ, String, Bool, true, false, not, ◌&&◌, ◌||◌, ◌==◌, ltb, Option, none, some, List, [], ◌∷◌, ◌++◌,
  Result, ok, err, if◌then◌else◌,
}
use safeguard_hooks.HookCore.Reason
use safeguard_hooks.HookCore.Reason.{RejectionReason}
use safeguard_hooks.Cli.Text.{trim, is_empty, all_chars, is_ascii_digit, read_u32}
use safeguard_hooks.Cli.Arguments.{address}
use safeguard_hooks.Cli.Revert.{ContractRevert, describe}
use safeguard_hooks.Cli.Outcome.{RunOutcome, GateOutcome, allowed, denied, view, gate}
use safeguard_hooks.Cli.Config.{Config, Policy, Token, Admin}
use safeguard_hooks.Cli.Checks.{
  Status, pass, fail, skip, Check, check, unquote, initialized_check, admin_check, config_checks,
  version_check, token_check, probe_name, probe_check, sample_check,
}

-- Code that asks questions of the state `S` of the world, and never stops early.
abbrev pub Query : Type 0 → Type 0 → Type 0
Query S A = S → A × S

module _ {S A : Type 0} where
  abbrev pub return : A → Query S A
  return a s = (a, s)

module _ {S A B : Type 0} where
  infixl 5 ◌>>=◌
  unfoldable pub ◌>>=◌ : Query S A → (A → Query S B) → Query S B
  ◌>>=◌ m f s = let (a, t) = m s in f a t

-- `for x in xs`, with the checks that each adds
unfoldable pub gather : {S A : Type 0} → (A → Query S (List Check)) → List A → Query S (List Check)
gather f [] = return []
gather f (x ∷ xs) = do one ← f x; more ← gather f xs; return (one ++ more)

-- `debug` prints a quoted text, `json_policy` is serde_json's reading of the
-- member `policy`, and `run` is the runner.
module _ (debug : String → String) (json_policy : String → Option String) {S : Type 0}
    (run : List String → S → Result String RunOutcome × S) where
  module _ (config : Config) (source_account : String) where
    abbrev ask : (func : String) → List (String × String) → Query S (Result String String)
    ask func params = view run source_account config.hooks_contract_id config.network func params

    abbrev simulate : (func : String) → List (String × String) → Query S (Result String GateOutcome)
    simulate func params =
        gate run source_account config.hooks_contract_id config.network func params

    abbrev transfer_params : (token account : String) → List (String × String)
    transfer_params token account =
        ("token", address token) ∷ ("from", address account) ∷ ("to", address account) ∷ []

    abbrev ask_version : String → Query S (List Check)
    ask_version func = do
      answer ← ask func []
      return (version_check debug json_policy func answer ∷ [])

    abbrev ask_token : Token → Query S (List Check)
    ask_token token = do
      answer ← ask "token_is_bound" (("token", address token.contract_id) ∷ [])
      return (token_check debug json_policy token answer ∷ [])

    abbrev none_listed : List Token → List Check
    none_listed [] = check skip "token bindings" "no tokens listed in the config" ∷ []
    none_listed (t ∷ ts) = []

    -- The probe, once the binding of the admin address is read.
    abbrev probe_bound : Result String String → Query S (List Check)
    probe_bound (err why) = return (check fail (probe_name debug json_policy) why ∷ [])
    probe_bound (ok value) =
        let probe = config.admin.public_key in
        if str_eq (unquote value) "true"
        then return (
            check fail (probe_name debug json_policy) (
              "the admin address " <> probe
              <> " is bound as a token, so it cannot serve as the unbound probe — investigate why an admin key entered enforcement scope")
            ∷ [])
        else (do
          outcome ← simulate "before_transfer" (transfer_params probe probe)
          return (probe_check debug json_policy probe outcome ∷ []))

    unfoldable pub probe_checks : Query S (List Check)
    probe_checks = do
      answer ← ask "token_is_bound" (("token", address config.admin.public_key) ∷ [])
      probe_bound answer

    abbrev sample_token : (account : String) → Token → Query S (List Check)
    sample_token account token = do
      outcome ← simulate "before_transfer" (transfer_params token.contract_id account)
      return (sample_check debug json_policy account token.alias outcome ∷ [])

    abbrev sample_checks : (account : Option String) (configured : Bool) → Query S (List Check)
    sample_checks none configured =
        return
          (check skip "gate sample" "pass --account G… to observe a real enforcement decision" ∷ [])
    sample_checks (some account) false =
        return (check skip "gate sample" "no compliance configuration to sample" ∷ [])
    sample_checks (some account) true = gather (sample_token account) config.tokens

    -- the reads after the first, in order
    unfoldable pub later_checks :
        (account : Option String) (initialized : String) → Query S (List Check)
    unfolding probe_checks gather
    later_checks account initialized = do
      admin ← ask "admin" []
      stored ← ask "config" []
      let (configured, on_config) = config_checks debug json_policy config stored
      on_versions ← gather ask_version ("config_version" ∷ "state_version" ∷ [])
      on_tokens ← gather ask_token config.tokens
      on_probe ← probe_checks
      on_samples ← sample_checks account configured
      return (
          check pass "contract reachable"
              (config.hooks_contract_id <> " answered on " <> config.network)
            ∷ initialized_check debug json_policy initialized
            ∷ admin_check debug json_policy config admin
            ∷ on_config
          ++ on_versions
          ++ none_listed config.tokens
          ++ on_tokens
          ++ on_probe
          ++ on_samples)

    abbrev reached : (account : Option String) → Result String String → Query S (List Check)
    reached account (err why) = return (check fail "contract reachable" why ∷ [])
    reached account (ok initialized) = later_checks account initialized

    unfoldable pub verify : (account : Option String) → Query S (List Check)
    verify account = do first ← ask "initialized" []; reached account first
