-- ===== src/Cli/Deploy.antt =====
-- cli/src/main.rs: the one-command bring-up of a deployment, and the registration of the network.
pub mod Acts
pub mod Outputs
pub mod Steps
pub mod Plan
pub mod Stops
pub mod Partway
pub mod Prefix
pub mod BringUp
use Prim.Native.String.{◌++◌ as ◌<>◌}
use text.Mathlib.Text.{◌==◌ as str_eq}
use safeguard_hooks.Prelude.{
  ℕ, String, Bool, true, false, not, ◌||◌, Option, none, some, List, [], ◌∷◌, map, Result, ok, err,
  unwrap_or, if◌then◌else◌,
}
use safeguard_hooks.Cli.Text.{lines, trim}
use safeguard_hooks.Cli.Arguments.{
  address, opt_address, boolean, deploy_args, invoke_args, network_add_args, network_list_args,
  parse_deployed_id,
}
use safeguard_hooks.Cli.Outcome.{RunOutcome, interpret}
use safeguard_hooks.Cli.Step.{Step, return, fail, some_or, ◌>>=◌, ◌>>◌, for_each}
use safeguard_hooks.Cli.Config.{Config, Policy, Token, Admin}

-- `any(|line| line == name)`
abbrev any_line : String → List String → Bool
any_line name [] = false
any_line name (l ∷ ls) = str_eq l name || any_line name ls

abbrev pub blocked_param : Option String → List (String × String)
blocked_param none = []
blocked_param (some blocked) = ("blocked", opt_address (some blocked)) ∷ []

abbrev pub recorded : Option Policy → Option String
recorded none = none
recorded (some p) = some p.contract_id

abbrev pub configured_line : Option String → Bool → String
configured_line (some id) sac = "policy set to " <> id <> "; sac_passthrough=" <> boolean sac
configured_line none sac = "policy gate disabled; sac_passthrough=" <> boolean sac

abbrev pub as_policy : Option String → Option Policy
as_policy none = none
as_policy (some id) = some (record { contract_id = id })

-- `run` is the runner, `exists` and `save` the file system.
module _ {S : Type 0} (run : List String → S → Result String RunOutcome × S) where
  abbrev sent : RunOutcome → Result String (Option String) → Result String RunOutcome
  sent outcome (ok value) = if outcome.ok then ok outcome else err "stellar CLI failed"
  sent outcome (err why) = if outcome.ok then ok outcome else err why

  unfoldable pub send_raw : List String → Step S RunOutcome
  send_raw args = do outcome ← run args; (λ s. (sent outcome (interpret outcome), s))

  abbrev done_or : Result String (Option String) → Result String (Unit {0})
  done_or (ok value) = ok tt
  done_or (err why) = err why

  -- the closure `invoke`
  unfoldable pub invoke :
      (source hooks_id network func : String) → List (String × String) → Step S (Unit {0})
  invoke source hooks_id network func params = do
    outcome ← run (invoke_args (some source) hooks_id network func params)
    (λ s. (done_or (interpret outcome), s))

  unfoldable pub ensure_network : Config → Step S (Unit {0})
  unfolding lines
  ensure_network config = do
    listed ← run network_list_args
    if not listed.ok
        then fail "cannot list stellar networks — is the stellar CLI configured?"
        else if any_line config.network (map trim (lines listed.stdout))
        then return tt
        else (do
          added ← run (network_add_args config.network config.rpc_url config.network_passphrase)
          if not added.ok
              then fail (
                  "network "
                  <> config.network
                  <> " is not registered and could not be added: "
                  <> trim added.stderr)
              else return tt)

  -- `print` writes a line to the terminal, which is part of the world.
  module _ (exists : String → Bool) (save : Config → String → Step S (Unit {0}))
      (print : String → S → S) where
    abbrev pub println : String → Step S (Unit {0})
    println line s = (ok tt, print line s)

    unfoldable pub deploy_policy : (source network wasm : String) → Option String → Step S String
    deploy_policy source network wasm policy_blocked =
        if not (exists wasm)
        then fail (
            "sample-policy wasm not found at " <> wasm
            <> " — build it with `cargo build --target wasm32v1-none --release -p sample-policy`")
        else (do
          out ← send_raw (deploy_args wasm source network (blocked_param policy_blocked))
          pid ←
              some_or "could not parse the deployed policy contract id"
                (parse_deployed_id out.stdout)
          println ("deployed policy: " <> pid)
          return pid)

    -- Step 2: which policy the deployment uses
    abbrev pub resolve_policy :
        Config
        → (source : String) (sample_policy_wasm policy_blocked policy_id : Option String)
          (no_policy : Bool)
        → Step S (Option String)
    resolve_policy config source wasm blocked policy_id true = return none
    resolve_policy config source wasm blocked (some id) false = return (some id)
    resolve_policy config source (some wasm) blocked none false =
        deploy_policy source config.network wasm blocked >>= λ pid. return (some pid)
    resolve_policy config source none blocked none false = return (recorded config.policy)

    unfoldable pub bind_tokens : Config → (source hooks_id : String) → Step S (Unit {0})
    bind_tokens config source hooks_id =
        for_each
          (λ (token : Token). do
            invoke source hooks_id config.network "bind_token" (
                ("token", address token.contract_id)
                ∷ ("sac", opt_address token.sac_contract_id)
                ∷ [])
            println ("bound token " <> token.alias))
          config.tokens

    -- Step 3: the one-way lifecycle on the fresh contract
    unfoldable pub run_lifecycle :
        Config
        → (source hooks_id : String) (policy : Option String) (sac : Bool) → Step S (Unit {0})
    unfolding bind_tokens
    run_lifecycle config source hooks_id policy sac = do
      invoke source hooks_id config.network "initialize"
          (("admin", address config.admin.public_key) ∷ [])
      println ("initialized with admin " <> config.admin.public_key)
      invoke source hooks_id config.network "set_config"
          (("policy", opt_address policy) ∷ ("sac_passthrough", boolean sac) ∷ [])
      println (configured_line policy sac)
      bind_tokens config source hooks_id

    -- the end of `run_deploy`: the new record is saved, where it is asked to be
    abbrev pub save_if : Option String → Config → Step S (Unit {0})
    save_if none config = println (
        "config not modified — rerun with --save to record " <> config.hooks_contract_id
        <> " as the hooks contract")
    save_if (some path) config = save config path >> println ("config updated: " <> path)

    unfoldable pub run_deploy :
        Config
        → (config_path : Option String) (source hooks_wasm : String)
          (sample_policy_wasm policy_blocked policy_id : Option String) (no_policy : Bool)
          (sac_passthrough : Option Bool)
        → Step S (Unit {0})
    unfolding deploy_policy run_lifecycle
    run_deploy config config_path source hooks_wasm wasm blocked policy_id no_policy
          sac_passthrough =
        if not (exists hooks_wasm)
        then fail (
            "hooks wasm not found at " <> hooks_wasm
            <> " — build it with `cargo build --target wasm32v1-none --release -p compliance-hooks`")
        else (do
          println "deploying compliance-hooks…"
          out ← send_raw (deploy_args hooks_wasm source config.network [])
          hooks_id ←
              some_or "could not parse the deployed hooks contract id"
                (parse_deployed_id out.stdout)
          println ("deployed hooks: " <> hooks_id)
          policy ← resolve_policy config source wasm blocked policy_id no_policy
          let sac = unwrap_or sac_passthrough config.sac_passthrough
          run_lifecycle config source hooks_id policy sac
          save_if config_path (record config {
            hooks_contract_id = hooks_id;
            policy = as_policy policy;
            sac_passthrough = sac;
          }))
