-- ===== src/Cli/Config.antt =====
-- cli/src/config.rs: the deployment record, and what is resolved from it.
pub mod Resolution
use mathlib.Core.Option
use Prim.Native.String.{◌++◌ as ◌<>◌}
use text.Mathlib.Text.{◌==◌ as str_eq, starts_with}
use safeguard_hooks.Prelude.{
  String, Bool, true, false, ◌||◌, Option, none, some, List, [], ◌∷◌, map, Result, ok, err, map_err,
  find, if◌then◌else◌,
}
use safeguard_hooks.Cli.Text.{is_empty}
use safeguard_hooks.Cli.Step.{Step, ◌>>=◌}

pub record Policy : Type 0 where
  pub contract_id : String

pub record Admin : Type 0 where
  pub public_key : String
  pub stellar_identity : Option String
  pub secret_key_env : Option String

pub record Token : Type 0 where
  pub alias : String
  pub contract_id : String
  pub sac_contract_id : Option String

pub record Config : Type 0 where
  pub network : String
  pub rpc_url : String
  pub network_passphrase : String
  pub hooks_contract_id : String
  pub policy : Option Policy
  pub sac_passthrough : Bool
  pub admin : Admin
  pub tokens : List Token

-- `join(", ")`
abbrev pub join : List String → String
join [] = ""
join (a ∷ []) = a
join (a ∷ b ∷ more) = a <> ", " <> join (b ∷ more)

abbrev pub aliases_of : List Token → String
aliases_of [] = "no tokens configured"
aliases_of (t ∷ ts) = join (map (λ u. u.alias) (t ∷ ts))

-- `debug` is the `{:?}` form of a text.
module _ (debug : String → String) where
  abbrev pub unknown_token : Config → String → String
  unknown_token config arg =
      "unknown token "
      <> debug arg
      <> ": not an alias ("
      <> aliases_of config.tokens
      <> ") and not a C…/G… address"

  abbrev pub resolved : Config → String → Option Token → Result String String
  resolved config arg (some t) = ok t.contract_id
  resolved config arg none =
      if starts_with arg "C" || starts_with arg "G" then ok arg else err (unknown_token config arg)

  unfoldable pub resolve_token : Config → String → Result String String
  resolve_token config arg = resolved config arg (find (λ t. str_eq t.alias arg) config.tokens)

unfoldable pub sac_for : Config → String → Option String
unfolding Option.bind
sac_for config arg =
    Option.bind (find (λ t. str_eq t.alias arg) config.tokens) (λ t. t.sac_contract_id)

-- `env_var` reads the process environment.
module _ (env_var : String → Option String) where
  abbrev pub secret_of : String → Option String → Result String String
  secret_of env none = err ("config names admin secret in $" <> env <> ", which is not set")
  secret_of env (some secret) =
      if is_empty secret
      then err ("config names admin secret in $" <> env <> ", which is not set")
      else ok secret

  abbrev pub no_source : String
  no_source =
      "no admin source: pass --source, set admin.stellar_identity, or admin.secret_key_env in the config"

  abbrev pub source_of : Option String → Option String → Option String → Result String String
  source_of (some explicit) identity env = ok explicit
  source_of none (some name) env = ok name
  source_of none none (some env) = secret_of env (env_var env)
  source_of none none none = err no_source

  unfoldable pub admin_source : Config → Option String → Result String String
  admin_source config explicit =
      source_of explicit config.admin.stellar_identity config.admin.secret_key_env

-- The file system is `read_to_string` and `write`, and serde_json is `from_str` and
-- `to_string_pretty`; each fails with a text.
module _ {S : Type 0} (read_to_string : String → Step S String)
    (write : (path contents : String) → Step S (Unit {0}))
    (from_str : String → Result String Config)
    (to_string_pretty : Config → Result String String) where
  abbrev pub or_error : {A : Type 0} → String → Result String A × S → Result String A × S
  or_error what (r, s) = (map_err (λ e. what <> e) r, s)

  unfoldable pub load : (path : String) → Step S Config
  load path = do
    raw ← (λ s. or_error ("cannot read config " <> path <> ": ") (read_to_string path s))
    (λ s. or_error ("invalid config " <> path <> ": ") (from_str raw, s))

  unfoldable pub save : Config → (path : String) → Step S (Unit {0})
  save config path = do
    raw ← (λ s. or_error "cannot serialize config: " (to_string_pretty config, s))
    (λ s. or_error ("cannot write config " <> path <> ": ") (write path (raw <> "\n") s))
