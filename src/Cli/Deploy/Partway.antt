-- ===== src/Cli/Deploy/Partway.antt =====
-- What the parts of the bring-up in cli/src/main.rs have done to the world, where they fail.
use Prim.Native.String.{◌++◌ as ◌<>◌}
use safeguard_hooks.Prelude.{
  String, inl, inr, Bool, true, false, Option, none, some, List, [], ◌∷◌, flat_map, Result,
}
use safeguard_hooks.Cli.Arguments.{deploy_args, invoke_args, parse_deployed_id}
use safeguard_hooks.Cli.Outcome.{RunOutcome}
use safeguard_hooks.Cli.Step.{◌>>=◌, Step, bind_err}
use safeguard_hooks.Cli.Config.{Config}
use safeguard_hooks.Cli.Deploy.{
  send_raw, invoke, println, blocked_param, configured_line, bind_tokens, run_lifecycle,
  deploy_policy, resolve_policy,
}
use safeguard_hooks.Cli.Deploy.Acts.{ran, said, println-Acts, send_raw-Acts, invoke-Acts, step_Acts}
use safeguard_hooks.Cli.Deploy.Steps.{policy_acts, bind_acts, lifecycle}
use safeguard_hooks.Cli.Deploy.Stops.{
  Stops, and_more, println-Stops, send_raw-Stops, told-Stops, bind-Stops, unless-Stops,
  invoke-Stops, for_each-Stops,
}

module _ {S : Type 0} (run : List String → S → Result String RunOutcome × S)
    (exists : String → Bool) (save : Config → String → Step S (Unit {0}))
    (print : String → S → S) where
  pub step-Stops :
      (source hooks_id network func : String) (params : List (String × String)) (line : String)
      → Stops run exists save print
          (invoke run source hooks_id network func params >>= λ _.
            println run exists save print line)
          (ran (invoke_args (some source) hooks_id network func params) ∷ said line ∷ [])
  step-Stops source hooks_id network func params line =
      bind-Stops run exists save print _ _
        (ran (invoke_args (some source) hooks_id network func params) ∷ []) (said line ∷ [])
        (invoke-Stops run exists save print source hooks_id network func params)
        (λ u. invoke-Acts run exists save print source hooks_id network func params)
        (λ u. println-Stops run exists save print line (said line ∷ []))

  module _ (config : Config) (source hooks_id : String) (policy : Option String) (sac : Bool) where
    pub bind_tokens-Stops :
        Stops run exists save print
          (bind_tokens run exists save print config source hooks_id)
          (flat_map (bind_acts config source hooks_id) config.tokens)
    unfolding bind_tokens
    bind_tokens-Stops =
        for_each-Stops run exists save print _ (bind_acts config source hooks_id)
          (λ token. step-Stops source hooks_id config.network "bind_token" _ _)
          (λ token. step_Acts run exists save print source hooks_id config.network "bind_token" _ _)
          config.tokens

    pub lifecycle-Stops :
        Stops run exists save print
          (run_lifecycle run exists save print config source hooks_id policy sac)
          (lifecycle config source hooks_id policy sac)
    unfolding run_lifecycle
    lifecycle-Stops =
        let admin_line = "initialized with admin " <> config.admin.public_key in
        bind-Stops run exists save print _ _ (_ ∷ []) _
          (invoke-Stops run exists save print source hooks_id config.network "initialize" _)
          (λ u. invoke-Acts run exists save print source hooks_id config.network "initialize" _)
          (λ u.
            bind-Stops run exists save print _ _ (said admin_line ∷ []) _
              (println-Stops run exists save print _ _) (λ u. println-Acts run exists save print _)
              (λ u.
                bind-Stops run exists save print _ _ (_ ∷ []) _
                  (invoke-Stops run exists save print source hooks_id config.network "set_config" _)
                  (λ u.
                    invoke-Acts run exists save print source hooks_id config.network "set_config" _)
                  (λ u.
                    bind-Stops run exists save print _ _ (said (configured_line policy sac) ∷ []) _
                      (println-Stops run exists save print _ _)
                      (λ u. println-Acts run exists save print _) (λ u. bind_tokens-Stops))))

  pub deploy_policy-Stops :
      (source network wasm : String) (blocked : Option String)
      → Stops run exists save print
          (deploy_policy run exists save print source network wasm blocked)
          (ran (deploy_args wasm source network (blocked_param blocked)) ∷ [])
  unfolding deploy_policy
  deploy_policy-Stops source network wasm blocked =
      unless-Stops run exists save print (exists wasm) _ _ _ (
        bind-Stops run exists save print
          (send_raw run (deploy_args wasm source network (blocked_param blocked))) _ (_ ∷ []) []
          (send_raw-Stops run exists save print _) (send_raw-Acts run exists save print _)
          λ out.
            told-Stops run exists save print _ "deployed policy: " (parse_deployed_id out.stdout))

  pub resolve_policy-Stops :
      (config : Config) (source : String) (wasm blocked policy_id : Option String)
      (no_policy : Bool) (id : String)
      → Stops run exists save print
          (resolve_policy run exists save print config source wasm blocked policy_id no_policy)
          (policy_acts source config.network wasm blocked policy_id no_policy (some id))
  unfolding Stops
  resolve_policy-Stops config source none blocked none true id s why s' h = cc (h)
  resolve_policy-Stops config source none blocked (some i) true id s why s' h = cc (h)
  resolve_policy-Stops config source (some wasm) blocked none true id s why s' h = cc (h)
  resolve_policy-Stops config source (some wasm) blocked (some i) true id s why s' h = cc (h)
  resolve_policy-Stops config source none blocked (some i) false id s why s' h = cc (h)
  resolve_policy-Stops config source (some wasm) blocked (some i) false id s why s' h = cc (h)
  resolve_policy-Stops config source none blocked none false id s why s' h = cc (h)
  resolve_policy-Stops config source (some wasm) blocked none false id s why s' h =
      elim (bind_err (deploy_policy run exists save print source config.network wasm blocked) _ s
        why s' h) [
          | inl stopped ↦
              and_more run exists save print
                (ran (deploy_args wasm source config.network (blocked_param blocked)) ∷ [])
                (said ("deployed policy: " <> id) ∷ []) s s'
                (deploy_policy-Stops source config.network wasm blocked s why s' stopped)
          | inr (pid, t, done, rest) ↦ cc (rest)
        ]
