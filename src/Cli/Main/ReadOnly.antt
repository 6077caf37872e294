-- ===== src/Cli/Main/ReadOnly.antt =====
-- The commands `verify` and `errors` need no key and leave no trace on the ledger or in a file.
use safeguard_hooks.Prelude.{
  String, ◌≡◌, Bool, true, false, not, Option, List, [], ◌∷◌, Result, ok, err, if◌then◌else◌,
  unwrap_or,
}
use safeguard_hooks.Cli.Arguments.{
  is_stellar_address, view_args, network_list_args, network_add_args,
}
use safeguard_hooks.Cli.Step.{Step, return, fail, ◌>>=◌, follow}
use safeguard_hooks.Cli.Config.{Config, load}
use safeguard_hooks.Cli.Deploy.{ensure_network}
use safeguard_hooks.Cli.Stellar.{Output, ran}
use safeguard_hooks.Cli.Stellar
use safeguard_hooks.Cli.App.{Command}
use safeguard_hooks.Cli.Checks.{Check}
use safeguard_hooks.Cli.Verify.{verify}
use safeguard_hooks.Cli.Verify.ReadOnly.{verify_reads}
use safeguard_hooks.Cli.Smoke.{print_lines, report_lines, print_report, conclude, run_verify, valid}
use safeguard_hooks.Cli.Main.{
  Cli, Platform, load_config, runner, print_errors, run_command, run, exit_of, main, reference,
}

-- The commands of the stellar CLI that sign nothing and send nothing.
pub data Harmless : List String → Type 0 where
  listing : Harmless network_list_args
  adding :
      (network rpc_url passphrase : String) → Harmless (network_add_args network rpc_url passphrase)
  viewing :
      (source_account contract network func : String) (params : List (String × String))
      → Harmless (view_args source_account contract network func params)

abbrev pub is_read_only : Command → Bool
is_read_only (Command.verify source_account account) = true
is_read_only (Command.errors code) = true
is_read_only _ = false

module _ {S : Type 0} (P : Platform S) (cli : Cli) (Inv : S → Type 0)
    (prints : (line : String) (s : S) → Inv s → Inv (P.print line s))
    (complains : (line : String) (s : S) → Inv s → Inv (P.eprint line s))
    (reads : (path : String) (s : S) → Inv s → Inv (P.read_to_string path s).1)
    (asks : (args : List String) (s : S)
      → Harmless args
      → Inv s
      → Inv (P.output cli.stellar_bin args s).1) where
  Keeping : {A : Type 0} → Step S A → Type 0
  Keeping m = (s : S) → Inv s → Inv (m s).1

  followed :
      {A B : Type 0} (f : A → Step S B) (x : Result String A × S)
      → ((a : A) → Keeping (f a))
      → Inv x.1
      → Inv (follow f x).1
  unfolding Keeping
  followed f (ok a, s) hf h = hf a s h
  followed f (err why, s) hf h = h

  Keeping-bind :
      {A B : Type 0} (m : Step S A) (f : A → Step S B)
      → Keeping m
      → ((a : A) → Keeping (f a))
      → Keeping (m >>= f)
  unfolding Keeping ◌>>=◌
  Keeping-bind m f hm hf s h = followed f (m s) hf (hm s h)

  Keeping-if :
      {A : Type 0} (b : Bool) (m n : Step S A)
      → Keeping m
      → Keeping n
      → Keeping (if b then m else n)
  Keeping-if true m n hm hn = hm
  Keeping-if false m n hm hn = hn

  Keeping-fail : (why : String) → Keeping {A = Unit {0}} (fail why)
  unfolding Keeping
  Keeping-fail why s h = h

  Keeping-return : Keeping {A = Unit {0}} (return tt)
  unfolding Keeping
  Keeping-return s h = h

  run_keeps : (args : List String) → Harmless args → Keeping (runner P cli args)
  unfolding Keeping Stellar.run
  run_keeps args harmless s h = ended (P.output cli.stellar_bin args s) (asks args s harmless h)
    where
      ended :
          (x : Result String Output × S)
          → Inv x.1
          → Inv (ran P.output P.from_utf8_lossy cli.stellar_bin x).1
      ended (ok out, t) k = k
      ended (err e, t) k = k

  load_keeps : (path : String) → Keeping (load_config P path)
  unfolding load Keeping
  load_keeps path = Keeping-bind _ _ (λ s h. reads path s h) λ raw s h. h

  print_lines_keeps : (ls : List String) (s : S) → Inv s → Inv (print_lines P.print ls s)
  print_lines_keeps [] s h = h
  print_lines_keeps (l ∷ ls) s h = print_lines_keeps ls (P.print l s) (prints l s h)

  network_keeps : (config : Config) → Keeping (ensure_network (runner P cli) config)
  unfolding ensure_network
  network_keeps config = Keeping-bind _ _ (run_keeps _ listing) λ listed.
      Keeping-if _ _ _ (Keeping-fail _) (
        Keeping-if _ _ _ Keeping-return (
          Keeping-bind _ _ (run_keeps _ (adding _ _ _))
            λ added. Keeping-if _ _ _ (Keeping-fail _) Keeping-return))

  report_keeps :
      (checks : List Check) (config : Config) (source : String) (s : S)
      → Inv s
      → Inv (print_report P.print checks config source s)
  unfolding print_report
  report_keeps checks config source s h = print_lines_keeps (report_lines checks config source) s h

  concludes :
      (config : Config) (source : String) (account : Option String)
      → Keeping (λ s.
        conclude P.debug P.json_policy
          (runner P cli)
          P.print
          config
          source
          (verify P.debug P.json_policy (runner P cli) config source account s))
  unfolding Keeping
  concludes config source account s h = report_keeps _ config source _ (
      verify_reads P.debug P.json_policy (runner P cli) config source Inv
        (λ func params.
          run_keeps _ (viewing source config.hooks_contract_id config.network func params))
        account s h)

  verify_keeps :
      (config : Config) (source_account account : Option String)
      → Keeping
          (run_verify P.debug P.json_policy (runner P cli) P.print config source_account account)
  unfolding run_verify
  verify_keeps config source_account account =
      let source = unwrap_or source_account config.admin.public_key in
      Keeping-if (not (is_stellar_address source)) _ _ (Keeping-fail _) (
        Keeping-if (not (valid account)) _ _ (Keeping-fail _) (
          Keeping-bind (ensure_network (runner P cli) config) _ (network_keeps config)
            λ _. concludes config source account))

  exit_keeps : (x : Result String (Unit {0}) × S) → Inv x.1 → Inv (exit_of P x).1
  exit_keeps (ok done, s) h = h
  exit_keeps (err msg, s) h = complains _ s h

  command_keeps : (c : Command) → is_read_only c ≡ true → Keeping (run_command P cli c)
  unfolding run_command print_errors Keeping
  command_keeps (Command.errors code) r s h = print_lines_keeps (reference code) s h
  command_keeps (Command.verify source_account account) r s h =
      Keeping-bind (load_config P cli.config) _ (load_keeps cli.config)
        (λ config. verify_keeps config source_account account) s h
  command_keeps (Command.init) r s h = cc (r)
  command_keeps (Command.configure policy no_policy sac) r s h = cc (r)
  command_keeps (Command.bind token sac) r s h = cc (r)
  command_keeps (Command.unbind token) r s h = cc (r)
  command_keeps (Command.freeze token account) r s h = cc (r)
  command_keeps (Command.unfreeze token account) r s h = cc (r)
  command_keeps (Command.deploy hooks_wasm wasm blocked policy_id no_policy sac saved) r s h =
      cc (r)
  command_keeps (Command.show token account) r s h = cc (r)

  -- Whatever `verify` and `errors` are told and however they end, all that they do is to read the
  -- record, to list and register networks, to simulate views, and to print: what these keep of the
  -- world is kept.
  pub main_reads : (s : S) → is_read_only cli.command ≡ true → Inv s → Inv (main P cli s).1
  unfolding main run Keeping
  main_reads s r h = exit_keeps _ (command_keeps cli.command r s h)
