-- ===== src/Cli/Deploy/Plan.antt =====
-- A bring-up that succeeds has run the commands of a plan, each once and in order.
use safeguard_hooks.Prelude.{
  String, ◌≡◌, sym, subst, ap, ◌∙◌, Bool, true, Option, List, [], ◌∷◌, ◌++◌, Result, ok, unwrap_or,
}
use Prim.Native.String.{◌++◌ as ◌<>◌}
use safeguard_hooks.Cli.Arguments.{deploy_args, parse_deployed_id, is_stellar_address}
use safeguard_hooks.Cli.Arguments.Injective.{parse_deployed_id_lem}
use safeguard_hooks.Cli.Outcome.{RunOutcome}
use safeguard_hooks.Cli.Step.{Step, bind_ok}
use safeguard_hooks.Cli.Config.{Config}
use safeguard_hooks.Cli.Deploy.{as_policy, save_if, run_deploy}
use safeguard_hooks.Cli.Deploy.Acts.{
  Act, ran, said, after_all, some_or_ok, unless_ok, in_turn, Acts, println-Acts, send_raw-Acts,
}
use safeguard_hooks.Cli.Deploy.Outputs.{Prints, send_raw_ok}
use safeguard_hooks.Cli.Deploy.Steps.{
  Uses, policy_acts, lifecycle, policy_Acts, lifecycle-Acts, resolve_policy-Uses,
}

-- The deployment of the hooks contract.
abbrev pub hooks_acts : Config → (source hooks_wasm hooks_id : String) → List Act
hooks_acts config source hooks_wasm hooks_id =
    said "deploying compliance-hooks…"
    ∷ ran (deploy_args hooks_wasm source config.network [])
    ∷ said ("deployed hooks: " <> hooks_id)
    ∷ []

-- The whole bring-up, up to the saving of the record.
abbrev pub plan :
    Config
    → (source hooks_wasm : String) (sample_policy_wasm policy_blocked policy_id : Option String)
      (no_policy sac : Bool) (hooks_id : String) (policy : Option String)
    → List Act
plan config source hooks_wasm wasm blocked policy_id no_policy sac hooks_id policy =
    hooks_acts config source hooks_wasm hooks_id
    ++ policy_acts source config.network wasm blocked policy_id no_policy policy
    ++ lifecycle config source hooks_id policy sac

module _ {S : Type 0} (run : List String → S → Result String RunOutcome × S)
    (exists : String → Bool) (save : Config → String → Step S (Unit {0}))
    (print : String → S → S) where
  then_told :
      (hello told : String) (d : List String) (s s1 s2 s3 s4 : S)
      → s1 ≡ print hello s
      → s2 ≡ (run d s1).1
      → s3 ≡ s2
      → s4 ≡ print told s3
      → s4 ≡ after_all run exists save print (said hello ∷ ran d ∷ said told ∷ []) s
  unfolding after_all
  then_told hello told d s s1 s2 s3 s4 e1 e2 e3 e4 =
      e4 ∙ ap (print told) (e3 ∙ e2 ∙ ap (λ x. (run d x).1) e1)

  in_order :
      (hello told : String) (d : List String) (pa cs : List Act) (s s1 s2 s3 s4 s5 s6 : S)
      → s1 ≡ print hello s
      → s2 ≡ (run d s1).1
      → s3 ≡ s2
      → s4 ≡ print told s3
      → s5 ≡ after_all run exists save print pa s4
      → s6 ≡ after_all run exists save print cs s5
      → s6 ≡ after_all run exists save print ((said hello ∷ ran d ∷ said told ∷ []) ++ pa ++ cs) s
  unfolding after_all
  in_order hello told d pa cs s s1 s2 s3 s4 s5 s6 e1 e2 e3 e4 e5 e6 =
      in_turn run exists save print pa cs _ s5 s6
        (e5
          ∙ ap (after_all run exists save print pa)
              (then_told hello told d s s1 s2 s3 s4 e1 e2 e3 e4))
        e6

  -- A bring-up that succeeds has done the acts of the plan, each once and in this order: it has said
  -- that it deploys, has deployed the hooks contract and, where one is asked for, the sample policy,
  -- has run `initialize` with the configured admin, `set_config`, and `bind_token` for each configured
  -- token in order, all on the contract whose id is taken from the output of the first command, and has
  -- told of each; and then it has saved the record with the new ids, where it is asked to. The policy
  -- is none, the given one, the one whose id is taken from the output of its own deployment, or the
  -- recorded one, as its arguments say.
  pub run_deploy_lem :
      (config : Config) (config_path : Option String) (source hooks_wasm : String)
      (wasm blocked policy_id : Option String) (no_policy : Bool) (sac : Option Bool) (s s' : S)
      → run_deploy run exists save print config config_path source hooks_wasm wasm blocked policy_id
          no_policy sac s
        ≡ (ok tt, s')
      → (hooks_id : String) × (policy : Option String) × (is_stellar_address hooks_id ≡ true)
        × Prints run
            (deploy_args hooks_wasm source config.network [])
            (print "deploying compliance-hooks…" s)
            hooks_id
        × Uses run config source wasm blocked policy_id no_policy policy
            (after_all run exists save print (hooks_acts config source hooks_wasm hooks_id) s)
        × (let enabled = unwrap_or sac config.sac_passthrough in
            save_if run exists save print config_path
              (record config {
                hooks_contract_id = hooks_id;
                policy = as_policy policy;
                sac_passthrough = enabled;
              })
              (after_all run exists save print
                (plan config source hooks_wasm wasm blocked policy_id no_policy enabled hooks_id
                  policy)
                s)
            ≡ (ok tt, s'))
  unfolding run_deploy after_all Acts
  run_deploy_lem config config_path source hooks_wasm wasm blocked policy_id no_policy sac s s' h =
      let (_, s1, h0, h1) = bind_ok _ _ s tt s' (unless_ok (exists hooks_wasm) _ _ s tt s' h) in
      let (out, s2, deployed, h2) = bind_ok _ _ s1 tt s' h1 in
      let first = println-Acts run exists save print "deploying compliance-hooks…" s s1 h0 in
      let (hooks_id, s3, parsed, h3) = bind_ok _ _ s2 tt s' h2 in
      let (id_printed, s3_eq) = some_or_ok _ (parse_deployed_id out.stdout) s2 hooks_id s3 parsed in
      let (_, s4, told, h4) = bind_ok _ _ s3 tt s' h3 in
      let (policy, s5, resolved, h5) = bind_ok _ _ s4 tt s' h4 in
      let (_, s6, lived, h6) = bind_ok _ _ s5 tt s' h5 in
      (
        hooks_id,
        policy,
        (parse_deployed_id_lem out.stdout hooks_id id_printed).0,
        subst (λ x. Prints run (deploy_args hooks_wasm source config.network []) x hooks_id) first
            (send_raw_ok run _ out s1 s2 hooks_id deployed id_printed),
        subst (Uses run config source wasm blocked policy_id no_policy policy)
            (then_told _ _ _ s s1 s2 s3 s4 first
              (send_raw-Acts run exists save print _ out s1 s2 deployed) s3_eq
              (println-Acts run exists save print _ s3 s4 told))
            (resolve_policy-Uses run exists save print config source wasm blocked policy_id
              no_policy policy s4 s5 resolved),
        ap (save_if run exists save print config_path _) (
              sym (
                in_order _ _ _
                  (policy_acts source config.network wasm blocked policy_id no_policy policy)
                  (lifecycle config source hooks_id policy (unwrap_or sac config.sac_passthrough)) s
                  s1 s2 s3 s4 s5 s6 (println-Acts run exists save print _ s s1 h0)
                  (send_raw-Acts run exists save print _ out s1 s2 deployed) s3_eq
                  (println-Acts run exists save print _ s3 s4 told)
                  (policy_Acts run exists save print config source wasm blocked policy_id no_policy
                    policy s4 s5 resolved)
                  (lifecycle-Acts run exists save print config source hooks_id policy _ s5 s6
                    lived)))
            ∙ h6,
      )
