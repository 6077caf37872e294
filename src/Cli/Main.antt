-- ===== src/Cli/Main.antt =====
-- cli/src/main.rs: `main` and `run`, from the parsed arguments to the exit code.
pub mod Signing
pub mod ReadOnly
use Prim.Native.String.{◌++◌ as ◌<>◌}
use safeguard_hooks.Prelude.{
  ℕ, String, Bool, Option, none, some, List, [], ◌∷◌, ◌++◌, map, Result, ok, err,
}
use safeguard_hooks.HookCore.Reason
use safeguard_hooks.HookCore.Reason.{RejectionReason}
use safeguard_hooks.Cli.Decimal.{display_two}
use safeguard_hooks.Cli.Revert.{from_code, describe}
use safeguard_hooks.Cli.Outcome.{RunOutcome}
use safeguard_hooks.Cli.Step.{Step, ◌>>=◌, ◌>>◌}
use safeguard_hooks.Cli.Config.{Config, admin_source, load, save}
use safeguard_hooks.Cli.Stellar.{Stellar, Output}
use safeguard_hooks.Cli.Stellar
use safeguard_hooks.Cli.Deploy.{ensure_network}
use safeguard_hooks.Cli.App.{Command, errors, verify, perform}
use safeguard_hooks.Cli.Smoke.{print_lines, run_verify}

-- The arguments, as clap parses them.
pub record Cli : Type 0 where
  pub config : String
  pub source : Option String
  pub stellar_bin : String
  pub command : Command

-- the lines of `print_errors`
abbrev pub reference : Option ℕ → List String
reference (some c) = describe (from_code c) ∷ []
reference none =
    "Rejection codes (docs/errors.md):"
      ∷ map (λ reason. "  " <> display_two (Reason.code reason) <> "  " <> Reason.name reason)
          Reason.all
    ++ "  12  already_initialized (contract-only)" ∷ []

-- What the program asks of its surroundings: processes, files, environment variables and the
-- terminal, and serde_json.
pub record Platform (S : Type 0) : Type 0 where
  pub output : (program : String) → List String → Step S Output
  pub from_utf8_lossy : List ℕ → String
  pub exists : String → Bool
  pub read_to_string : String → Step S String
  pub write : (path contents : String) → Step S (Unit {0})
  pub env_var : String → Option String
  pub print : String → S → S
  pub eprint : String → S → S
  -- the `{:?}` form of a text
  pub debug : String → String
  pub from_str : String → Result String Config
  pub to_string_pretty : Config → Result String String
  -- the member `policy` of a JSON text
  pub json_policy : String → Option String

module _ {S : Type 0} (P : Platform S) where
  unfoldable pub print_errors : Option ℕ → Step S (Unit {0})
  print_errors code s = (ok tt, print_lines P.print (reference code) s)

  abbrev pub load_config : (path : String) → Step S Config
  load_config = load P.read_to_string P.write P.from_str P.to_string_pretty

  abbrev pub save_config : Config → (path : String) → Step S (Unit {0})
  save_config = save P.read_to_string P.write P.from_str P.to_string_pretty

  abbrev pub runner : Cli → List String → Step S RunOutcome
  runner cli = Stellar.run P.output P.from_utf8_lossy (record { bin = cli.stellar_bin })

  -- `run` for the commands that act on the ledger with the signing source
  unfoldable pub run_signing : Cli → Command → Step S (Unit {0})
  run_signing cli command = do
    config ← load_config cli.config
    ensure_network (runner cli) config
    source ← (λ s. (admin_source P.env_var config cli.source, s))
    perform P.debug (runner cli) P.print config source P.exists save_config cli.config command

  -- `run` by its command: `errors` needs no record, and `verify` no signing source
  unfoldable pub run_command : Cli → Command → Step S (Unit {0})
  unfolding print_errors run_signing
  run_command cli (errors code) = print_errors code
  run_command cli (verify source_account account) = load_config cli.config >>= λ config.
      run_verify P.debug P.json_policy (runner cli) P.print config source_account account
  run_command cli command = run_signing cli command

  unfoldable pub run : Cli → Step S (Unit {0})
  unfolding run_command
  run cli = run_command cli cli.command

  abbrev pub exit_of : Result String (Unit {0}) × S → ℕ × S
  exit_of (ok done, s) = (0, s)
  exit_of (err msg, s) = (1, P.eprint ("❌ " <> msg) s)

  -- the exit code, after `Cli::parse`
  unfoldable pub main : Cli → S → ℕ × S
  unfolding run
  main cli s = exit_of (run cli s)
