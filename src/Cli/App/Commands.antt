-- ===== src/Cli/App/Commands.antt =====
-- What a signing command of the command line asks of the contract.
use safeguard_hooks.Prelude.{
  Bool, true, false, String, ◌≡◌, refl, sym, ap, ◌∙◌, some, List, Result, ok, err, unwrap_or,
}
use safeguard_hooks.Cli.Arguments.{address, invoke_args}
use safeguard_hooks.Cli.Interface.{function_of, params_of, command}
use safeguard_hooks.Cli.Outcome.{RunOutcome}
use safeguard_hooks.Cli.Step.{Step, ◌>>=◌, bind_ok}
use safeguard_hooks.Cli.Config.{Config, resolve_token}
use safeguard_hooks.ComplianceHooks.Transition.{Call}
use safeguard_hooks.Cli.App.{
  Command, init, configure, bind, unbind, freeze, unfreeze, println, lift, invoke, init_admin,
  set_policy, bind_alias, unbind_alias, freeze_op, sac_or, policy_for, perform,
}

-- The commands that sign one invocation of a deployed contract.
abbrev pub signs : Command → Bool
signs init = true
signs (configure policy no_policy sac_passthrough) = true
signs (bind token sac) = true
signs (unbind token) = true
signs (freeze token account) = true
signs (unfreeze token account) = true
signs _ = false

abbrev with_id : (String → Call String) → Result String String → Result String (Call String)
with_id call (ok id) = ok (call id)
with_id call (err why) = err why

module _ (debug : String → String) {S : Type 0}
    (run : List String → S → Result String RunOutcome × S) (print : String → S → S)
    (config : Config) (source : String) where
  -- The call that a command stands for, where its token resolves.
  abbrev with_token : String → (String → Call String) → Result String (Call String)
  with_token token call = with_id call (resolve_token debug config token)

  abbrev pub call_of : Command → Result String (Call String)
  call_of init = ok (Call.initialize config.admin.public_key)
  call_of (configure policy no_policy sac) = ok (
      Call.set_config (policy_for debug run print config source no_policy policy)
        (unwrap_or sac config.sac_passthrough))
  call_of (bind token sac) =
      with_token token (λ id. Call.bind_token id (sac_or debug run print config source sac token))
  call_of (unbind token) = with_token token Call.unbind_token
  call_of (freeze token account) = with_token token (λ id. Call.freeze id account)
  call_of (unfreeze token account) = with_token token (λ id. Call.unfreeze id account)
  call_of _ = err ""

  -- The world after one signed invocation of a call, and a line on the terminal.
  abbrev pub after_call : Call String → (line : String) → S → S
  after_call call line s =
      print line (run (command source config.hooks_contract_id config.network call) s).1

  lift_ok :
      {A : Type 0} (r : Result String A) (s : S) (a : A) (s' : S)
      → lift debug run print config source r s ≡ (ok a, s')
      → (r ≡ ok a) × (s' ≡ s)
  unfolding lift
  lift_ok r s a s' h = (ap (λ x. x.0) h, sym (ap (λ x. x.1) h))

  called :
      (func : String) (params : List (String × String)) (line : String) (s s' : S)
      → (invoke debug run print config source func params >>= λ _.
            println debug run print config source line)
          s
        ≡ (ok tt, s')
      → s'
        ≡ print line
            (run
              (invoke_args (some source) config.hooks_contract_id config.network func params)
              s).1
  unfolding invoke lift
  called func params line s s' h =
      let (value, t, invoked, rest) = bind_ok _ _ s tt s' h in
      let (outcome, u, ran, lifted) = bind_ok _ _ s value t invoked in
      sym (ap (λ x. x.1) rest)
      ∙ ap (print line) (sym (ap (λ x. x.1) lifted) ∙ sym (ap (λ x. x.1) ran))

  abbrev pub Performed : Command → S → S → Type 0
  Performed c s s' =
      (call : Call String) × (line : String) × (call_of c ≡ ok call) × (s' ≡ after_call call line s)

  -- A command that resolves its token, makes a call on it, and prints a line.
  on_token :
      (token : String) (call : String → Call String) (line : String → String) (c : Command)
      (s s' : S)
      → call_of c ≡ with_token token call
      → (lift debug run print config source (resolve_token debug config token) >>= λ id.
            invoke debug run print config source (function_of (call id)) (params_of (call id))
            >>= λ _. println debug run print config source (line id))
          s
        ≡ (ok tt, s')
      → Performed c s s'
  on_token token call line c s s' stands h =
      let (id, t, resolved, rest) = bind_ok _ _ s tt s' h in
      let (e, same) = lift_ok _ s id t resolved in
      (
        call id,
        line id,
        stands ∙ ap (with_id call) e,
        called _ _ _ t s' rest ∙ ap (after_call (call id) (line id)) same,
      )

  module _ (exists : String → Bool) (save : Config → String → Step S (Unit {0}))
      (config_path : String) where
    -- A signing command that succeeds has signed exactly one invocation, that of the contract's entry
    -- point the command stands for, on the contract, the network and with the source of the record,
    -- and has printed one line.
    pub perform_lem :
        (c : Command) (s s' : S)
        → signs c ≡ true
        → perform debug run print config source exists save config_path c s ≡ (ok tt, s')
        → Performed c s s'
    unfolding perform init_admin set_policy bind_alias unbind_alias freeze_op address
    perform_lem init s s' sig h = (_, _, refl, called _ _ _ s s' h)
    perform_lem (configure policy no_policy sac) s s' sig h = (_, _, refl, called _ _ _ s s' h)
    perform_lem (bind token sac) s s' sig h =
        on_token token (λ id. Call.bind_token id (sac_or debug run print config source sac token)) _
          (bind token sac) s s' refl h
    perform_lem (unbind token) s s' sig h =
        on_token token Call.unbind_token _ (unbind token) s s' refl h
    perform_lem (freeze token account) s s' sig h =
        on_token token (λ id. Call.freeze id account) _ (freeze token account) s s' refl h
    perform_lem (unfreeze token account) s s' sig h =
        on_token token (λ id. Call.unfreeze id account) _ (unfreeze token account) s s' refl h
    perform_lem (Command.deploy hooks_wasm wasm blocked policy_id no_policy sac saved) s s' sig h =
        cc (sig)
    perform_lem (Command.show token account) s s' sig h = cc (sig)
    perform_lem (Command.verify source_account account) s s' sig h = cc (sig)
    perform_lem (Command.errors code) s s' sig h = cc (sig)
