-- ===== src/Cli/Main/Signing.antt =====
-- What has happened when the program exits with 0 after a signing command.
use safeguard_hooks.Prelude.{String, ◌≡◌, refl, sym, subst, ap, arith, ◌∙◌, true, Result, ok, err}
use safeguard_hooks.Cli.Step.{bind_ok}
use safeguard_hooks.Cli.Config.{Config, admin_source}
use safeguard_hooks.Cli.Deploy.{ensure_network}
use safeguard_hooks.Cli.App.{
  Command, init, configure, bind, unbind, freeze, unfreeze, deploy, show, verify, errors,
}
use safeguard_hooks.Cli.App.Commands.{signs, Performed, perform_lem}
use safeguard_hooks.Cli.Main.{
  Cli, Platform, load_config, save_config, runner, run_signing, run_command, run, exit_of, main,
}

module _ {S : Type 0} (P : Platform S) (cli : Cli) where
  exit_ok : (x : Result String (Unit {0}) × S) (s' : S) → exit_of P x ≡ (0, s') → x ≡ (ok tt, s')
  exit_ok (ok done, s) s' h = cc
  exit_ok (err msg, s) s' h = absurd (omega (arith, ap (λ x. x.0) h))

  ledger_command : (c : Command) → signs c ≡ true → run_command P cli c ≡ run_signing P cli c
  unfolding run_command
  ledger_command (deploy hooks_wasm wasm blocked policy_id no_policy sac saved) sig = refl
  ledger_command (show token account) sig = refl
  ledger_command (verify source_account account) sig = cc (sig)
  ledger_command (errors code) sig = cc (sig)
  ledger_command init sig = refl
  ledger_command (configure policy no_policy sac) sig = refl
  ledger_command (bind token sac) sig = refl
  ledger_command (unbind token) sig = refl
  ledger_command (freeze token account) sig = refl
  ledger_command (unfreeze token account) sig = refl

  -- What leads from the world before a signing command to the world after it.
  abbrev pub Signs : (s s' : S) → Type 0
  Signs s s' =
      (config : Config) × (source : String) × (t : S) × (u : S) × (load_config P cli.config s
        ≡ (ok config, t))
      × (ensure_network (runner P cli) config t ≡ (ok tt, u))
      × (admin_source P.env_var config cli.source ≡ ok source)
      × Performed P.debug (runner P cli) P.print config source cli.command u s'

  run_signing_lem :
      (s s' : S)
      → signs cli.command ≡ true
      → run_signing P cli cli.command s ≡ (ok tt, s')
      → Signs s s'
  unfolding run_signing
  run_signing_lem s s' sig h =
      let (config, t, loaded, h1) = bind_ok _ _ s tt s' h in
      let (_, u, registered, h2) = bind_ok _ _ t tt s' h1 in
      let (source, v, resolved, h3) = bind_ok _ _ u tt s' h2 in
      let same_world : v ≡ u = sym (ap (λ x. x.1) resolved) in
      (
        config,
        source,
        t,
        u,
        loaded,
        registered,
        ap (λ x. x.0) resolved,
        subst (λ w. Performed P.debug (runner P cli) P.print config source cli.command w s')
            same_world
            (perform_lem P.debug (runner P cli) P.print config source P.exists (save_config P)
              cli.config cli.command v s' sig h3),
      )

  -- A signing command after which the program exits with 0 has read the record, has found the network
  -- registered or has registered it, has taken the signing source from the arguments or the record,
  -- and has then signed exactly one invocation with it, that of the entry point it stands for, and
  -- printed one line.
  pub main_signs : (s s' : S) → signs cli.command ≡ true → main P cli s ≡ (0, s') → Signs s s'
  unfolding main run
  main_signs s s' sig h =
      run_signing_lem s s' sig
        (ap (λ m. m s) (sym (ledger_command cli.command sig)) ∙ exit_ok _ s' h)
