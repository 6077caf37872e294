-- ===== src/Cli/Outcome.antt =====
-- cli/src/{stellar, main}.rs: what an invocation of the stellar CLI comes to.
pub mod Reports
use Prim.Native.String
use Prim.Native.String.{◌++◌ as ◌<>◌}
use safeguard_hooks.Prelude.{
  ℕ, String, ◌≡◌, ◌↔◌, refl, sym, ap, ◌∙◌, Bool, true, false, Option, none, some, List, Result, ok,
  err, if◌then◌else◌, unwrap_or,
}
use safeguard_hooks.Cli.Text.{last_nonempty}
use safeguard_hooks.Cli.Arguments.{view_args}
use safeguard_hooks.Cli.Revert.{ContractRevert, describe, decode_contract_error}

pub record RunOutcome : Type 0 where
  pub ok : Bool
  pub stdout : String
  pub stderr : String

unfoldable pub combined : RunOutcome → String
combined o = o.stdout <> "\n" <> o.stderr

unfoldable pub value : RunOutcome → Option String
value o = last_nonempty o.stdout

abbrev pub no_output : String
no_output = "stellar CLI failed without output"

pub data GateOutcome : Type 0 where
  allowed : GateOutcome
  denied : ContractRevert → GateOutcome

-- the error of a failed run, from its decoded revert and its last line
abbrev pub failure : Option ContractRevert → Option String → String
failure (some revert) tail = describe revert
failure none (some tail) = tail
failure none none = no_output

unfoldable pub interpret : RunOutcome → Result String (Option String)
unfolding value combined
interpret outcome =
    if outcome.ok
    then ok (value outcome)
    else err (failure (decode_contract_error (combined outcome)) (last_nonempty (combined outcome)))

-- `run` is the runner: the stellar CLI, whose state is `S`.
module _ {S : Type 0} (run : List String → S → Result String RunOutcome × S) where
  abbrev pub settle :
      {B : Type 0}
      → (RunOutcome → Result String B)
      → Result String RunOutcome × S
      → Result String B × S
  settle f (ok o, s') = (f o, s')
  settle f (err why, s') = (err why, s')

  -- `runner.run(&args)?`, and what follows it
  abbrev pub and_then_run :
      {B : Type 0} → List String → (RunOutcome → Result String B) → S → Result String B × S
  and_then_run args f s = settle f (run args s)

  abbrev pub viewed : RunOutcome → Result String String
  viewed outcome =
      if outcome.ok
      then ok (unwrap_or (value outcome) "")
      else err
          (failure (decode_contract_error (combined outcome)) (last_nonempty (combined outcome)))

  unfoldable pub view :
      (source_account contract_id network func : String)
      → List (String × String)
      → S
      → Result String String × S
  view source_account contract_id network func params =
      and_then_run (view_args source_account contract_id network func params) viewed

  abbrev pub gated : Option ContractRevert → Option String → Result String GateOutcome
  gated (some revert) tail = ok (denied revert)
  gated none tail = err (unwrap_or tail no_output)

  abbrev pub judged : RunOutcome → Result String GateOutcome
  judged outcome =
      if outcome.ok
      then ok allowed
      else gated (decode_contract_error (combined outcome)) (last_nonempty (combined outcome))

  unfoldable pub gate :
      (source_account contract_id network func : String)
      → List (String × String)
      → S
      → Result String GateOutcome × S
  gate source_account contract_id network func params =
      and_then_run (view_args source_account contract_id network func params) judged
