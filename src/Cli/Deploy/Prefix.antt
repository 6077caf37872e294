-- ===== src/Cli/Deploy/Prefix.antt =====
-- A bring-up that fails has done the first acts of its plan, and nothing else.
use Prim.Native.String.{◌++◌ as ◌<>◌}
use safeguard_hooks.Prelude.{
  String, ◌≡◌, ◌⊎◌, inl, inr, refl, sym, ap, ◌∙◌, Bool, Option, none, some, List, [], ◌∷◌, ◌++◌,
  Result, err, unwrap_or,
}
use safeguard_hooks.Cli.Arguments.{deploy_args, parse_deployed_id}
use safeguard_hooks.Cli.Outcome.{RunOutcome}
use safeguard_hooks.Cli.Step.{◌>>=◌, Step, some_or, bind_err}
use safeguard_hooks.Cli.Config.{Config}
use safeguard_hooks.Cli.Deploy.{
  send_raw, println, run_lifecycle, resolve_policy, as_policy, save_if, run_deploy,
}
use safeguard_hooks.Cli.Deploy.Acts.{
  Act, ran, said, Acts, in_turn, after_all, send_raw-Acts, some_or_ok,
}
use safeguard_hooks.Cli.Deploy.Steps.{policy_acts, lifecycle, policy_Acts, lifecycle-Acts}
use safeguard_hooks.Cli.Deploy.Plan.{plan}
use safeguard_hooks.Cli.Deploy.Stops.{
  Begun, Stops, nothing_done, ended, and_more, done_before, send_raw-Stops, some_or_err, unless_err,
}
use safeguard_hooks.Cli.Deploy.Partway.{lifecycle-Stops, resolve_policy-Stops}

module _ {S : Type 0} (run : List String → S → Result String RunOutcome × S)
    (exists : String → Bool) (save : Config → String → Step S (Unit {0}))
    (print : String → S → S) where
  module _ (config : Config) (config_path : Option String) (source hooks_wasm : String)
      (wasm blocked policy_id : Option String) (no_policy sac : Bool) where
    abbrev saving : (hooks_id : String) (policy : Option String) → Step S (Unit {0})
    saving hooks_id policy = save_if run exists save print config_path (record config {
      hooks_contract_id = hooks_id;
      policy = as_policy policy;
      sac_passthrough = sac;
    })

    abbrev whole : (hooks_id : String) (policy : Option String) → List Act
    whole hooks_id policy =
        plan config source hooks_wasm wasm blocked policy_id no_policy sac hooks_id policy

    -- How a bring-up can fail: it has begun a plan, or the plan is done and the record is not saved.
    abbrev pub Fails : (s : S) (why : String) (s' : S) → Type 0
    Fails s why s' =
        (hooks_id : String) × (policy : Option String) × (Begun run exists save print
            (whole hooks_id policy) s s'
          ⊎ (saving hooks_id policy (after_all run exists save print (whole hooks_id policy) s)
              ≡ (err why, s')))

    abbrev head : (hooks_id : String) → List Act
    head hooks_id =
        said "deploying compliance-hooks…"
        ∷ ran (deploy_args hooks_wasm source config.network [])
        ∷ said ("deployed hooks: " <> hooks_id)
        ∷ []

    abbrev middle : (policy : Option String) → List Act
    middle policy = policy_acts source config.network wasm blocked policy_id no_policy policy

    abbrev end : (hooks_id : String) (policy : Option String) → List Act
    end hooks_id policy = lifecycle config source hooks_id policy sac

    living : (hooks_id : String) (policy : Option String) → Step S (Unit {0})
    living hooks_id policy =
        run_lifecycle run exists save print config source hooks_id policy sac >>= λ _.
        saving hooks_id policy

    in_lifecycle :
        (hooks_id : String) (policy : Option String) (s t : S) (why : String) (s' : S)
        → t ≡ after_all run exists save print (head hooks_id ++ middle policy) s
        → living hooks_id policy t ≡ (err why, s')
        → Fails s why s'
    unfolding living Stops Acts
    in_lifecycle hooks_id policy s t why s' led h =
        elim (bind_err (run_lifecycle run exists save print config source hooks_id policy sac)
          (λ _. saving hooks_id policy) t why s' h) [
            | inl stopped ↦ (
              hooks_id,
              policy,
              inl (
                  done_before run exists save print (head hooks_id ++ middle policy)
                    (end hooks_id policy) s t s' led
                    (lifecycle-Stops run exists save print config source hooks_id policy sac t why
                      s' stopped)),
            )
            | inr (u, v, done, rest) ↦ (
              hooks_id,
              policy,
              inr (
                  ap (saving hooks_id policy) (
                    sym (
                      in_turn run exists save print (head hooks_id ++ middle policy)
                        (end hooks_id policy) s t v led
                        (lifecycle-Acts run exists save print config source hooks_id policy sac t v
                          done)))
                  ∙ rest),
            )
          ]

    from_policy : (hooks_id : String) → Step S (Unit {0})
    from_policy hooks_id =
        resolve_policy run exists save print config source wasm blocked policy_id no_policy
        >>= λ policy. living hooks_id policy

    in_policy :
        (hooks_id : String) (s t : S) (why : String) (s' : S)
        → t ≡ after_all run exists save print (head hooks_id) s
        → from_policy hooks_id t ≡ (err why, s')
        → Fails s why s'
    unfolding from_policy Stops Acts
    in_policy hooks_id s t why s' led h =
        elim (bind_err
          (resolve_policy run exists save print config source wasm blocked policy_id no_policy)
          (living hooks_id) t why s' h) [
            | inl stopped ↦ (
              hooks_id,
              some "",
              inl (
                  done_before run exists save print (head hooks_id)
                    (middle (some "") ++ end hooks_id (some "")) s t s' led
                    (and_more run exists save print (middle (some "")) (end hooks_id (some "")) t s'
                      (resolve_policy-Stops run exists save print config source wasm blocked
                        policy_id no_policy "" t why s' stopped))),
            )
            | inr (policy, v, done, rest) ↦
                in_lifecycle hooks_id policy s v why s'
                  (in_turn run exists save print (head hooks_id) (middle policy) s t v led (
                    policy_Acts run exists save print config source wasm blocked policy_id no_policy
                      policy t v done))
                  rest
          ]

    abbrev opening : List Act
    opening =
        said "deploying compliance-hooks…"
        ∷ ran (deploy_args hooks_wasm source config.network [])
        ∷ []

    -- Nothing of the first two acts depends on the ids.
    early :
        (s : S) (why : String) (s' : S) → Begun run exists save print opening s s' → Fails s why s'
    early s why s' begun = (
      "",
      none,
      inl (
          and_more run exists save print opening
            (said ("deployed hooks: " <> "") ∷ middle none ++ end "" none) s s' begun),
    )

    from_output : RunOutcome → Step S (Unit {0})
    from_output out =
        some_or "could not parse the deployed hooks contract id" (parse_deployed_id out.stdout)
        >>= λ hooks_id. println run exists save print ("deployed hooks: " <> hooks_id) >>= λ _.
            from_policy hooks_id

    in_output :
        (out : RunOutcome) (s t : S) (why : String) (s' : S)
        → t ≡ after_all run exists save print opening s
        → from_output out t ≡ (err why, s')
        → Fails s why s'
    unfolding from_output Acts after_all ◌>>=◌
    in_output out s t why s' led h =
        elim (bind_err
          (some_or "could not parse the deployed hooks contract id" (parse_deployed_id out.stdout))
          _ t why s' h) [
            | inl stopped ↦
                early s why s' (
                  ended run exists save print opening s s' (some_or_err _ _ t why s' stopped ∙ led))
            | inr (hooks_id, v, found, rest) ↦
                in_policy hooks_id s (print ("deployed hooks: " <> hooks_id) v) why s'
                  (in_turn run exists save print opening
                    (said ("deployed hooks: " <> hooks_id) ∷ []) s t _ led
                    (ap (print ("deployed hooks: " <> hooks_id))
                      ((some_or_ok _ _ t hooks_id v found).1)))
                  rest
          ]

    in_deployment :
        (s t : S) (why : String) (s' : S)
        → t ≡ print "deploying compliance-hooks…" s
        → (send_raw run (deploy_args hooks_wasm source config.network []) >>= from_output) t
          ≡ (err why, s')
        → Fails s why s'
    unfolding Stops Acts after_all
    in_deployment s t why s' said_first h =
        elim (bind_err (send_raw run (deploy_args hooks_wasm source config.network [])) from_output
          t why s' h) [
            | inl stopped ↦ early s why s' (
                done_before run exists save print (said "deploying compliance-hooks…" ∷ [])
                  (ran (deploy_args hooks_wasm source config.network []) ∷ []) s t s' said_first
                  (send_raw-Stops run exists save print _ t why s' stopped))
            | inr (out, v, done, rest) ↦
                in_output out s v why s'
                  (send_raw-Acts run exists save print _ out t v done
                    ∙ ap (λ x. (run (deploy_args hooks_wasm source config.network []) x).1)
                        said_first)
                  rest
          ]

  -- A bring-up that fails has done the first acts of a plan, in its order, and nothing else; or it has
  -- done the whole plan and failed to save the record with the new ids.
  pub run_deploy-Fails :
      (config : Config) (config_path : Option String) (source hooks_wasm : String)
      (wasm blocked policy_id : Option String) (no_policy : Bool) (sac : Option Bool) (s : S)
      (why : String) (s' : S)
      → run_deploy run exists save print config config_path source hooks_wasm wasm blocked policy_id
          no_policy sac s
        ≡ (err why, s')
      → Fails config config_path source hooks_wasm wasm blocked policy_id no_policy
          (unwrap_or sac config.sac_passthrough)
          s
          why
          s'
  unfolding run_deploy from_output from_policy living ◌>>=◌
  run_deploy-Fails config config_path source hooks_wasm wasm blocked policy_id no_policy sac s why
        s' h =
      elim (unless_err (exists hooks_wasm) _ _ s why s' h) [
        | inl missing ↦ ("", none, inl (nothing_done run exists save print _ s s' missing))
        | inr going ↦
            in_deployment config config_path source hooks_wasm wasm blocked policy_id no_policy
              (unwrap_or sac config.sac_passthrough) s _ why s' refl going
      ]
