-- ===== src/Cli/Smoke.antt =====
-- cli/src/main.rs: the `verify` command of `run`, from its arguments to its exit.
pub mod Exit
use Prim.Native.String.{◌++◌ as ◌<>◌}
use safeguard_hooks.Prelude.{
  ℕ, String, Bool, true, false, not, Option, none, some, List, [], ◌∷◌, ◌++◌, flat_map, Result, ok,
  err, unwrap_or, length, ◌==◌, if◌then◌else◌, suc,
}
use safeguard_hooks.Cli.Text.{is_empty}
use safeguard_hooks.Cli.Arguments.{is_stellar_address}
use safeguard_hooks.Cli.Decimal.{display}
use safeguard_hooks.Cli.Outcome.{RunOutcome}
use safeguard_hooks.Cli.Step.{Step, return, fail, ◌>>=◌, ◌>>◌}
use safeguard_hooks.Cli.Config.{Config, Admin}
use safeguard_hooks.Cli.Deploy.{ensure_network}
use safeguard_hooks.Cli.Verify
use safeguard_hooks.Cli.Checks.{Check, Status}
use safeguard_hooks.Cli.Verify.{verify}

abbrev pub is_fail : Status → Bool
is_fail Status.fail = true
is_fail _ = false

abbrev is_pass : Status → Bool
is_pass Status.pass = true
is_pass _ = false

abbrev is_skip : Status → Bool
is_skip Status.skip = true
is_skip _ = false

-- `checks.iter().filter(|c| c.status == status).count()`
abbrev pub count : (Status → Bool) → List Check → ℕ
count p [] = 0
count p (c ∷ cs) = let rest = count p cs in if p c.status then suc rest else rest

abbrev pub failures : List Check → ℕ
failures checks = count is_fail checks

abbrev tag : Status → String
tag Status.pass = "PASS"
tag Status.fail = "FAIL"
tag Status.skip = "SKIP"

abbrev check_lines : Check → List String
check_lines c =
    ("  " <> tag c.status <> "  " <> c.name)
    ∷ (if is_empty c.detail then [] else ("        " <> c.detail) ∷ [])

-- the lines that `print_report` prints
unfoldable pub report_lines : List Check → Config → (source_account : String) → List String
unfolding flat_map display
report_lines checks config source_account =
    "safeguard-hooks verify — read-only, no secret key"
      ∷ ("network: " <> config.network)
      ∷ ("hooks contract: " <> config.hooks_contract_id)
      ∷ ("source account: " <> source_account <> " (simulated, never signs)")
      ∷ ""
      ∷ flat_map check_lines checks
    ++ ""
      ∷ (display (count is_pass checks)
          <> " passed, "
          <> display (count is_fail checks)
          <> " failed, "
          <> display (count is_skip checks)
          <> " skipped")
      ∷ []

-- `print` writes a line to the terminal, which is part of the world.
module _ {S : Type 0} (print : String → S → S) where
  abbrev pub print_lines : List String → S → S
  print_lines [] s = s
  print_lines (l ∷ ls) s = print_lines ls (print l s)

  unfoldable pub print_report : List Check → Config → (source_account : String) → S → S
  unfolding report_lines
  print_report checks config source_account s =
      print_lines (report_lines checks config source_account) s

-- Whether an account, if there is one, is an address.
abbrev pub valid : Option String → Bool
valid none = true
valid (some account) = is_stellar_address account

module _ (debug : String → String) (json_policy : String → Option String) {S : Type 0}
    (run : List String → S → Result String RunOutcome × S) (print : String → S → S)
    (config : Config) where
  abbrev pub verdict : List Check → Result String (Unit {0})
  verdict checks =
      if failures checks == 0
      then ok tt
      else err (
          "deployment verification failed: "
          <> display (failures checks)
          <> " of "
          <> display (length checks)
          <> " checks failed")

  abbrev pub conclude : (source : String) → List Check × S → Result String (Unit {0}) × S
  conclude source (checks, t) = (verdict checks, print_report print checks config source t)

  abbrev bad_account : Option String → String
  bad_account none = ""
  bad_account (some account) = "--account must be a 56-character G… address, got " <> debug account

  unfoldable pub run_verify : (source_account account : Option String) → Step S (Unit {0})
  run_verify source_account account =
      let source = unwrap_or source_account config.admin.public_key in
      if not (is_stellar_address source)
      then fail (
          "verify simulates from a bare public key, but "
          <> debug source
          <> " is not a 56-character G… address — pass --source-account, or set a real admin.public_key in the config")
      else if not (valid account)
      then fail (bad_account account)
      else (ensure_network run config
          >> (λ s. conclude source (verify debug json_policy run config source account s)))
