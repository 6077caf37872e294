-- ===== src/Tests/Main.antt =====
-- Runs of the whole program: a freeze, and a listing of the errors.
use safeguard_hooks.Prelude.{ℕ, ◌+◌, String, ◌≡◌, refl, true, none, some, List, [], ◌∷◌, ok, All}
use safeguard_hooks.Cli.Text.{lines, last_lines, last_nonempty}
use safeguard_hooks.Cli.Outcome.{interpret, value}
use safeguard_hooks.Cli.Step.{◌>>=◌}
use safeguard_hooks.Cli.Config.{resolve_token, admin_source, load}
use safeguard_hooks.Cli.Stellar.{Output}
use safeguard_hooks.Cli.Stellar
use safeguard_hooks.Cli.Deploy.{ensure_network}
use safeguard_hooks.Cli.App.{Command, perform, lift, invoke, freeze_op}
use safeguard_hooks.Cli.Main.{Cli, Platform, run, run_command, run_signing, main}
use safeguard_hooks.Cli.Main.Signing.{Signs, main_signs}
use safeguard_hooks.Cli.Main.ReadOnly.{Harmless, main_reads}
use safeguard_hooks.Tests.Cli.{record_of}

-- The state counts the processes; each prints the name of the network.
abbrev platform : Platform ℕ
platform = record {
  output = λ program args n. (ok (record { success = true; stdout = []; stderr = [] }), n + 1);
  from_utf8_lossy = λ bytes. "local";
  exists = λ path. true;
  read_to_string = λ path n. (ok "{}", n);
  write = λ path contents n. (ok tt, n);
  env_var = λ name. some "S1";
  print = λ line n. n;
  eprint = λ line n. n;
  debug = λ s. s;
  from_str = λ s. ok record_of;
  to_string_pretty = λ config. ok "{}";
  json_policy = λ s. none;
}

abbrev cli : Command → Cli
cli command = record {
  config = "configuration.json";
  source = none;
  stellar_bin = "stellar";
  command = command;
}

-- The listing of the networks, and the freeze.
two_processes : main platform (cli (Command.freeze "usd" "G7")) 0 ≡ (0, 2)
unfolding main run run_command run_signing load Stellar.run ensure_network admin_source perform
    freeze_op lift invoke resolve_token interpret value last_nonempty last_lines lines ◌>>=◌
two_processes = refl

main_signs_example : Signs platform (cli (Command.freeze "usd" "G7")) 0 2
main_signs_example = main_signs platform (cli (Command.freeze "usd" "G7")) 0 2 refl two_processes

-- The state is the list of the processes' arguments.
abbrev logged : Platform (List (List String))
logged = record {
  output =
      λ program args log. (ok (record { success = true; stdout = []; stderr = [] }), args ∷ log);
  from_utf8_lossy = λ bytes. "true";
  exists = λ path. true;
  read_to_string = λ path log. (ok "{}", log);
  write = λ path contents log. (ok tt, log);
  env_var = λ name. none;
  print = λ line log. log;
  eprint = λ line log. log;
  debug = λ s. s;
  from_str = λ s. ok record_of;
  to_string_pretty = λ config. ok "{}";
  json_policy = λ s. none;
}

abbrev smoke_test : Cli
smoke_test =
    cli (Command.verify (some "GABCDEFGHIJKLMNOPQRSTUVWXYZ234567ABCDEFGHIJKLMNOPQRSTUVW") none)

main_reads_example : All Harmless (main logged smoke_test []).1
main_reads_example =
    main_reads logged smoke_test (All Harmless) (λ line log h. h) (λ line log h. h)
      (λ path log h. h) (λ args log harmless h. (harmless, h)) [] refl tt
