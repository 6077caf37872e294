-- ===== src/Cli/Deploy/BringUp.antt =====
-- The lifecycle that cli/src/main.rs runs, as the fresh contract of
-- contracts/compliance-hooks/src/lib.rs meets it.
use mathlib.Core.Option
use safeguard_hooks.Prelude.{
  ℕ, String, ◌≡◌, refl, sym, subst, ap, Bool, true, Option, List, [], ◌∷◌, map, flat_map, Result,
  ok,
}
use safeguard_hooks.Host.{Host}
use safeguard_hooks.ComplianceHooks.Transition.{State, Call, initialize, set_config, bind_token}
use safeguard_hooks.ComplianceHooks.Audit.{fresh}
use safeguard_hooks.ComplianceHooks.Setup.{Answered, Binding, binds, IsSetUp, setup_lem}
use safeguard_hooks.Cli.Interface.{command, decoded}
use safeguard_hooks.Cli.Outcome.{RunOutcome}
use safeguard_hooks.Cli.Step.{Step}
use safeguard_hooks.Cli.Config.{Config, Token}
use safeguard_hooks.Cli.Deploy.{run_lifecycle}
use safeguard_hooks.Cli.Deploy.Acts.{Act, ran, said, after_all, Acts}
use safeguard_hooks.Cli.Deploy.Steps.{bind_acts, lifecycle, lifecycle-Acts}

-- The commands among these acts.
abbrev pub commands : List Act → List (List String)
commands [] = []
commands (ran args ∷ acts) = args ∷ commands acts
commands (said line ∷ acts) = commands acts

abbrev bind_call : Token → Call String
bind_call t = bind_token t.contract_id t.sac_contract_id

-- The calls that the lifecycle makes, with the addresses of the deployment record.
abbrev pub calls : Config → (policy : Option String) (sac : Bool) → List (Call String)
calls config policy sac =
    initialize config.admin.public_key ∷ set_config policy sac ∷ map bind_call config.tokens

commands-bind_acts :
    (config : Config) (source hooks_id : String) (ts : List Token)
    → commands (flat_map (bind_acts config source hooks_id) ts)
      ≡ map (command source hooks_id config.network) (map bind_call ts)
unfolding flat_map
commands-bind_acts config source hooks_id [] = refl
commands-bind_acts config source hooks_id (t ∷ ts) =
    ap (λ x. command source hooks_id config.network (bind_call t) ∷ x)
      (commands-bind_acts config source hooks_id ts)

commands-lifecycle :
    (config : Config) (source hooks_id : String) (policy : Option String) (sac : Bool)
    → commands (lifecycle config source hooks_id policy sac)
      ≡ map (command source hooks_id config.network) (calls config policy sac)
commands-lifecycle config source hooks_id policy sac =
    ap
      (λ x.
        command source hooks_id config.network (initialize config.admin.public_key)
        ∷ command source hooks_id config.network (set_config policy sac)
        ∷ x)
      (commands-bind_acts config source hooks_id config.tokens)

module _ ⦃H : Host⦄ where
  open H use {Address, Outside}

  module _ (read : String → Address) where
    abbrev pub binding_of : Token → Binding
    binding_of t = (read t.contract_id, Option.map read t.sac_contract_id)

    decoded-binds :
        (ts : List Token) → map (decoded read) (map bind_call ts) ≡ binds (map binding_of ts)
    decoded-binds [] = refl
    decoded-binds (t ∷ ts) =
        ap (λ x. bind_token (read t.contract_id) (Option.map read t.sac_contract_id) ∷ x)
          (decoded-binds ts)

    module _ {S : Type 0} (run : List String → S → Result String RunOutcome × S)
        (exists : String → Bool) (save : Config → String → Step S (Unit {0}))
        (print : String → S → S) where
      -- A lifecycle that succeeds has sent the commands that call `initialize`, `set_config` and one
      -- `bind_token` for each configured token, in this order and no others; and these calls, each made
      -- in a transaction that the configured admin signs, are answered with `ok` by a fresh contract
      -- from every environment, and leave it owned by that admin, configured with the chosen policy and
      -- passthrough, at the current version with one change counted, with no account frozen and each
      -- token bound as the last record of it says.
      pub bring_up_lem :
          (config : Config) (source hooks_id : String) (policy : Option String) (sac : Bool)
          (st st' : S)
          → run_lifecycle run exists save print config source hooks_id policy sac st ≡ (ok tt, st')
          → (w : ℕ → Outside) → ((n : ℕ) → H.signed (w n) (read config.admin.public_key) ≡ true)
          → (u : Outside)
          → (acts : List Act) × (st' ≡ after_all run exists save print acts st)
            × (commands acts
                ≡ map (command source hooks_id config.network) (calls config policy sac))
            × (s : State) × Answered w 0 (map (decoded read) (calls config policy sac)) (fresh u) s
            × IsSetUp
                (read config.admin.public_key)
                (record { policy = Option.map read policy; sac_passthrough = sac })
                (map binding_of config.tokens)
                s
      unfolding Acts
      bring_up_lem config source hooks_id policy sac st st' h w signed u =
          let a = read config.admin.public_key in
          let (s, answered, ready) =
            setup_lem w a signed (record { policy = Option.map read policy; sac_passthrough = sac })
              (map binding_of config.tokens) u in
          (
            lifecycle config source hooks_id policy sac,
            lifecycle-Acts run exists save print config source hooks_id policy sac st st' h,
            commands-lifecycle config source hooks_id policy sac,
            s,
            subst
                (λ cs.
                  Answered w 0 (initialize a ∷ set_config (Option.map read policy) sac ∷ cs)
                    (fresh u) s)
                (sym (decoded-binds config.tokens)) answered,
            ready,
          )
