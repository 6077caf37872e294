-- ===== src/Tests/App.antt =====
-- A freeze from the command line.
use safeguard_hooks.Prelude.{ℕ, ◌+◌, String, ◌≡◌, refl, Bool, true, List, Result, ok}
use safeguard_hooks.Cli.Text.{lines, last_lines, last_nonempty}
use safeguard_hooks.Cli.Outcome.{RunOutcome, interpret, value}
use safeguard_hooks.Cli.Step.{◌>>=◌}
use safeguard_hooks.Cli.Config.{Config, resolve_token}
use safeguard_hooks.Cli.App.{freeze, perform, lift, invoke, freeze_op}
use safeguard_hooks.Cli.App.Commands.{Performed, perform_lem}
use safeguard_hooks.Tests.Cli.{record_of}

-- The state counts the commands that were run.
abbrev runner : List String → ℕ → Result String RunOutcome × ℕ
runner args n = (ok (record { ok = true; stdout = ""; stderr = "" }), n + 1)

abbrev silent : String → ℕ → ℕ
silent line n = n

abbrev quoted : String → String
quoted s = s

abbrev there : String → Bool
there path = true

abbrev keep : Config → String → ℕ → Result String (Unit {0}) × ℕ
keep config path n = (ok tt, n)

one_command :
    perform quoted runner silent record_of "admin" there keep "local.json" (freeze "usd" "G7") 0
    ≡ (ok tt, 1)
unfolding perform freeze_op lift invoke resolve_token interpret value last_nonempty last_lines lines
    ◌>>=◌
one_command = refl

perform_lem_example : Performed quoted runner silent record_of "admin" (freeze "usd" "G7") 0 1
perform_lem_example =
    perform_lem quoted runner silent record_of "admin" there keep "local.json" (freeze "usd" "G7") 0
      1 refl one_command
