-- ===== src/Cli/App.antt =====
-- cli/src/main.rs: the commands that act on a deployment, one invocation each, and `show`.
pub mod Commands
use Prim.Native.String.{◌++◌ as ◌<>◌}
use text.Mathlib.Text.{◌==◌ as str_eq}
use safeguard_hooks.Prelude.{
  ℕ, String, Bool, true, false, Option, none, some, List, [], ◌∷◌, map, Result, ok, err, unwrap_or,
  if◌then◌else◌,
}
use safeguard_hooks.Cli.Text.{is_empty}
use safeguard_hooks.Cli.Arguments.{address, opt_address, boolean, invoke_args}
use safeguard_hooks.Cli.Outcome.{RunOutcome, interpret}
use safeguard_hooks.Cli.Step.{Step, return, fail, ◌>>=◌, ◌>>◌, for_each}
use safeguard_hooks.Cli.Deploy.{configured_line, recorded, run_deploy}
use safeguard_hooks.Cli.Config.{Config, Policy, Token, Admin, resolve_token, sac_for}

pub data Command : Type 0 where
  init : Command
  configure : (policy : Option String) (no_policy : Bool) (sac_passthrough : Option Bool) → Command
  bind : (token : String) (sac : Option String) → Command
  unbind : (token : String) → Command
  freeze unfreeze : (token account : String) → Command
  deploy :
      (hooks_wasm : String) (sample_policy_wasm policy_blocked policy_id : Option String)
      (no_policy : Bool) (sac_passthrough : Option Bool) (save : Bool)
      → Command
  show : (token account : Option String) → Command
  verify : (source_account account : Option String) → Command
  errors : (code : Option ℕ) → Command

-- `value_or`: an empty value reads as a missing one.
abbrev pub value_or : Option String → String → String
value_or none fallback = fallback
value_or (some s) fallback = if is_empty s then fallback else s

-- `print` writes a line to the terminal, which is part of the world.
module _ (debug : String → String) {S : Type 0}
    (run : List String → S → Result String RunOutcome × S) (print : String → S → S)
    (config : Config) (source : String) where
  abbrev pub println : String → Step S (Unit {0})
  println line s = (ok tt, print line s)

  unfoldable pub lift : {A : Type 0} → Result String A → Step S A
  lift r s = (r, s)

  unfoldable pub invoke : (func : String) → List (String × String) → Step S (Option String)
  unfolding lift
  invoke func params = do
    outcome ← run (invoke_args (some source) config.hooks_contract_id config.network func params)
    lift (interpret outcome)

  unfoldable pub read : (func : String) → List (String × String) → Step S (Option String)
  unfolding invoke
  read func params = invoke func params

  unfoldable pub init_admin : Step S (Unit {0})
  unfolding invoke
  init_admin = do
    value ← invoke "initialize" (("admin", address config.admin.public_key) ∷ [])
    println ("initialized with admin " <> config.admin.public_key)

  unfoldable pub set_policy : Option String → Bool → Step S (Unit {0})
  unfolding invoke
  set_policy policy sac = do
    value ←
        invoke "set_config" (("policy", opt_address policy) ∷ ("sac_passthrough", boolean sac) ∷ [])
    println (configured_line policy sac)

  abbrev pub sac_or : Option String → String → Option String
  sac_or (some s) token = some s
  sac_or none token = sac_for config token

  unfoldable pub bind_alias : String → Option String → Step S (Unit {0})
  unfolding invoke lift
  bind_alias token sac = do
    id ← lift (resolve_token debug config token)
    value ←
        invoke "bind_token" (("token", address id) ∷ ("sac", opt_address (sac_or sac token)) ∷ [])
    println ("bound " <> id)

  unfoldable pub unbind_alias : String → Step S (Unit {0})
  unfolding invoke lift
  unbind_alias token = do
    id ← lift (resolve_token debug config token)
    value ← invoke "unbind_token" (("token", address id) ∷ [])
    println ("unbound " <> id)

  unfoldable pub freeze_op : (func token account : String) → Step S (Unit {0})
  unfolding invoke lift
  freeze_op func token account = do
    id ← lift (resolve_token debug config token)
    value ← invoke func (("token", address id) ∷ ("account", address account) ∷ [])
    println
        ((if str_eq func "freeze" then "froze" else "unfroze") <> " " <> account <> " on " <> id)

  -- The policy of `configure`: none, the one given, or the recorded one.
  abbrev pub policy_for : (no_policy : Bool) → Option String → Option String
  policy_for true policy = none
  policy_for false (some id) = some id
  policy_for false none = recorded config.policy

  abbrev admin_line : Option String → String
  admin_line none = "admin: (none)"
  admin_line (some a) = if str_eq a "null" then "admin: (none)" else "admin: " <> a

  abbrev config_line : Option String → String
  config_line none = "config: null (enforcement off — hooks fail closed)"
  config_line (some c) =
      if str_eq c "null"
      then "config: null (enforcement off — hooks fail closed)"
      else "config: " <> c

  abbrev show_frozen : (id : String) → Option String → Step S (Unit {0})
  show_frozen id none = return tt
  show_frozen id (some account) = do
    frozen ← read "is_frozen" (("token", address id) ∷ ("account", address account) ∷ [])
    println ("  frozen(" <> account <> ")=" <> value_or frozen "?")

  abbrev show_token : Option String → (id : String) → Step S (Unit {0})
  show_token account id = do
    bound ← read "token_is_bound" (("token", address id) ∷ [])
    println ("token " <> id <> ": bound=" <> value_or bound "?")
    show_frozen id account

  abbrev show_configured : Option String → List String → Step S (Unit {0})
  show_configured account [] = println "tokens: none configured"
  show_configured account (id ∷ ids) = for_each (show_token account) (id ∷ ids)

  abbrev show_targets : Option String → Option String → Step S (Unit {0})
  show_targets none account = show_configured account (map (λ t. t.contract_id) config.tokens)
  show_targets (some token) account = do
    id ← lift (resolve_token debug config token)
    for_each (show_token account) (id ∷ [])

  unfoldable pub show_state : (token account : Option String) → Step S (Unit {0})
  unfolding read lift for_each
  show_state token account = do
    println ("hooks contract: " <> config.hooks_contract_id)
    println ("network: " <> config.network)
    initialized ← read "initialized" []
    println ("initialized: " <> value_or initialized "?")
    admin ← read "admin" []
    println (admin_line admin)
    stored ← read "config" []
    println (config_line stored)
    version ← read "config_version" []
    println ("config_version: " <> value_or version "?")
    show_targets token account

  -- `exists` and `save` are the file system, and `config_path` is where the record was read from.
  module _ (exists : String → Bool) (save : Config → String → Step S (Unit {0}))
      (config_path : String) where
    -- the arms of the match in `run`; `run` has returned before it comes to the last two
    unfoldable pub perform : Command → Step S (Unit {0})
    unfolding init_admin set_policy bind_alias unbind_alias freeze_op show_state
    perform init = init_admin
    perform (configure policy no_policy sac_passthrough) =
        set_policy (policy_for no_policy policy) (unwrap_or sac_passthrough config.sac_passthrough)
    perform (bind token sac) = bind_alias token sac
    perform (unbind token) = unbind_alias token
    perform (freeze token account) = freeze_op "freeze" token account
    perform (unfreeze token account) = freeze_op "unfreeze" token account
    perform (deploy hooks_wasm wasm blocked policy_id no_policy sac_passthrough saved) =
        run_deploy run exists save print config (if saved then some config_path else none) source
          hooks_wasm wasm blocked policy_id no_policy sac_passthrough
    perform (show token account) = show_state token account
    perform (verify source_account account) = fail "handled before the admin source is resolved"
    perform (errors code) = fail "internal error: entered unreachable code"
