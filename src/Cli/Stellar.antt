-- ===== src/Cli/Stellar.antt =====
-- cli/src/stellar.rs: the runner that starts the stellar CLI.
use Prim.Native.String.{◌++◌ as ◌<>◌}
use safeguard_hooks.Prelude.{ℕ, String, Bool, List, Result, ok, err}
use safeguard_hooks.Cli.Outcome.{RunOutcome}

-- What the operating system returns of a process that ended: bytes.
pub record Output : Type 0 where
  pub success : Bool
  pub stdout : List ℕ
  pub stderr : List ℕ

pub record Stellar : Type 0 where
  pub bin : String

-- `output` starts a program with its arguments and waits for it, and `from_utf8_lossy` reads text.
module _ {S : Type 0}
    (output : (program : String) → (args : List String) → S → Result String Output × S)
    (from_utf8_lossy : List ℕ → String) where
  abbrev pub outcome_of : Output → RunOutcome
  outcome_of out = record {
    ok = out.success;
    stdout = from_utf8_lossy out.stdout;
    stderr = from_utf8_lossy out.stderr;
  }

  abbrev pub ran : String → Result String Output × S → Result String RunOutcome × S
  ran bin (ok out, s) = (ok (outcome_of out), s)
  ran bin (err e, s) = (err ("failed to run " <> bin <> ": " <> e), s)

  unfoldable pub run : Stellar → List String → S → Result String RunOutcome × S
  run runner args s = ran runner.bin (output runner.bin args s)
