-- ===== src/Cli/Deploy/Steps.antt =====
-- What the steps of a bring-up do to the world.
use safeguard_hooks.Prelude.{
  String, ◌≡◌, sym, subst, ap, ◌∙◌, Bool, true, false, Option, none, some, List, [], ◌∷◌, flat_map,
  Result, ok,
}
use Prim.Native.String.{◌++◌ as ◌<>◌}
use safeguard_hooks.Cli.Arguments.{
  address, opt_address, boolean, deploy_args, invoke_args, parse_deployed_id, is_stellar_address,
}
use safeguard_hooks.Cli.Arguments.Injective.{parse_deployed_id_lem}
use safeguard_hooks.Cli.Outcome.{RunOutcome}
use safeguard_hooks.Cli.Step.{Step, bind_ok}
use safeguard_hooks.Cli.Config.{Config, Token}
use safeguard_hooks.Cli.Deploy.{
  blocked_param, configured_line, bind_tokens, run_lifecycle, deploy_policy, resolve_policy,
  recorded, sent,
}
use safeguard_hooks.Cli.Deploy.Acts.{
  Act, ran, said, after_all, some_or_ok, unless_ok, Acts, println-Acts, send_raw-Acts, invoke-Acts,
  step_Acts, for_each-Acts,
}
use safeguard_hooks.Cli.Deploy.Outputs.{Prints, send_raw_ok}

-- Which policy a bring-up configures: none, the given one, the sample policy whose deployment in the
-- world `s` prints its id, or the recorded one.
abbrev pub Uses :
    {S : Type 0}
    → (List String → S → Result String RunOutcome × S)
    → Config
    → (source : String) (sample_policy_wasm policy_blocked policy_id : Option String)
      (no_policy : Bool) (policy : Option String) (s : S)
    → Type 0
Uses run config source wasm blocked policy_id true policy s = policy ≡ none
Uses run config source wasm blocked (some id) false policy s = policy ≡ some id
Uses run config source (some wasm) blocked none false policy s =
    (id : String) × (policy ≡ some id)
    × (is_stellar_address id ≡ true)
    × Prints run (deploy_args wasm source config.network (blocked_param blocked)) s id
Uses run config source none blocked none false policy s = policy ≡ recorded config.policy

-- What step 2 does.
abbrev pub policy_acts :
    (source network : String) (sample_policy_wasm policy_blocked policy_id : Option String)
    (no_policy : Bool) (policy : Option String)
    → List Act
policy_acts source network (some wasm) blocked none false (some id) =
    ran (deploy_args wasm source network (blocked_param blocked))
    ∷ said ("deployed policy: " <> id)
    ∷ []
policy_acts source network _ blocked _ no_policy policy = []

abbrev pub bind_acts : Config → (source hooks_id : String) → Token → List Act
bind_acts config source hooks_id token =
    ran (
      invoke_args (some source) hooks_id config.network "bind_token"
        (("token", address token.contract_id) ∷ ("sac", opt_address token.sac_contract_id) ∷ []))
    ∷ said ("bound token " <> token.alias)
    ∷ []

-- The lifecycle of a fresh contract: initialize, configure, and bind each token.
abbrev pub lifecycle :
    Config → (source hooks_id : String) (policy : Option String) (sac : Bool) → List Act
lifecycle config source hooks_id policy sac =
    ran (
      invoke_args (some source) hooks_id config.network "initialize"
        (("admin", address config.admin.public_key) ∷ []))
    ∷ said ("initialized with admin " <> config.admin.public_key)
    ∷ ran (
        invoke_args (some source) hooks_id config.network "set_config"
          (("policy", opt_address policy) ∷ ("sac_passthrough", boolean sac) ∷ []))
    ∷ said (configured_line policy sac)
    ∷ flat_map (bind_acts config source hooks_id) config.tokens

module _ {S : Type 0} (run : List String → S → Result String RunOutcome × S)
    (exists : String → Bool) (save : Config → String → Step S (Unit {0}))
    (print : String → S → S) where
  deploy_policy_lem :
      (source network wasm : String) (blocked : Option String) (s : S) (pid : String) (s' : S)
      → deploy_policy run exists save print source network wasm blocked s ≡ (ok pid, s')
      → (is_stellar_address pid ≡ true)
        × Prints run (deploy_args wasm source network (blocked_param blocked)) s pid
        × (s'
            ≡ after_all run exists save print
                (ran (deploy_args wasm source network (blocked_param blocked))
                  ∷ said ("deployed policy: " <> pid)
                  ∷ [])
                s)
  unfolding deploy_policy after_all Acts
  deploy_policy_lem source network wasm blocked s pid s' h =
      let (out, u, sent, h1) = bind_ok _ _ s pid s' (unless_ok (exists wasm) _ _ s pid s' h) in
      let (id, v, parsed, h2) = bind_ok _ _ u pid s' h1 in
      let (id_printed, v_eq) = some_or_ok _ (parse_deployed_id out.stdout) u id v parsed in
      let (_, w, told, h3) = bind_ok _ _ v pid s' h2 in
      let same_id : id ≡ pid = cc (h3) in
      (
        subst (λ i. is_stellar_address i ≡ true) same_id
            (parse_deployed_id_lem out.stdout id id_printed).0,
        subst (Prints run (deploy_args wasm source network (blocked_param blocked)) s) same_id
            (send_raw_ok run _ out s u id sent id_printed),
        sym (ap (λ x. x.1) h3)
            ∙ sym (ap (λ x. x.1) told)
            ∙ ap (λ i. print ("deployed policy: " <> i) v) same_id
            ∙ ap (print ("deployed policy: " <> pid))
                (v_eq ∙ send_raw-Acts run exists save print _ out s u sent),
      )

  -- What the step makes of the id, where it deploys a policy.
  fresh_lem :
      (config : Config) (source wasm : String) (blocked : Option String) (policy : Option String)
      (s s' : S)
      → resolve_policy run exists save print config source (some wasm) blocked none false s
        ≡ (ok policy, s')
      → (pid : String) × (some pid ≡ policy)
        × (deploy_policy run exists save print source config.network wasm blocked s ≡ (ok pid, s'))
  fresh_lem config source wasm blocked policy s s' h =
      let (pid, t, deployed, rest) =
        bind_ok (deploy_policy run exists save print source config.network wasm blocked) _ s policy
          s' h in
      (pid, cc (rest), deployed ∙ ap (λ x. (ok pid, x)) (ap (λ x. x.1) rest))

  pub policy_Acts :
      (config : Config) (source : String) (wasm blocked policy_id : Option String)
      (no_policy : Bool) (policy : Option String)
      → Acts run exists save print
          (resolve_policy run exists save print config source wasm blocked policy_id no_policy)
          policy
          (policy_acts source config.network wasm blocked policy_id no_policy policy)
  unfolding Acts after_all deploy_policy
  policy_Acts config source none blocked none true policy s s' h = sym (ap (λ x. x.1) h)
  policy_Acts config source none blocked (some id) true policy s s' h = sym (ap (λ x. x.1) h)
  policy_Acts config source (some wasm) blocked none true policy s s' h = sym (ap (λ x. x.1) h)
  policy_Acts config source (some wasm) blocked (some id) true policy s s' h = sym (ap (λ x. x.1) h)
  policy_Acts config source none blocked (some id) false policy s s' h = sym (ap (λ x. x.1) h)
  policy_Acts config source (some wasm) blocked (some id) false policy s s' h =
      sym (ap (λ x. x.1) h)
  policy_Acts config source none blocked none false policy s s' h = sym (ap (λ x. x.1) h)
  policy_Acts config source (some wasm) blocked none false policy s s' h =
      let (pid, same_policy, deployed) = fresh_lem config source wasm blocked policy s s' h in
      subst
        (λ p.
          s'
          ≡ after_all run exists save print
              (policy_acts source config.network (some wasm) blocked none false p) s)
        same_policy (deploy_policy_lem source config.network wasm blocked s pid s' deployed).2

  bind_Acts :
      (config : Config) (source hooks_id : String)
      → Acts run exists save print
          (bind_tokens run exists save print config source hooks_id)
          tt
          (flat_map (bind_acts config source hooks_id) config.tokens)
  unfolding bind_tokens
  bind_Acts config source hooks_id =
      for_each-Acts run exists save print _ (bind_acts config source hooks_id)
        (λ token. step_Acts run exists save print source hooks_id config.network "bind_token" _ _)
        config.tokens

  module _ (config : Config) (source hooks_id : String) (policy : Option String) (sac : Bool) where
    pub lifecycle-Acts :
        Acts run exists save print
          (run_lifecycle run exists save print config source hooks_id policy sac)
          tt
          (lifecycle config source hooks_id policy sac)
    unfolding Acts run_lifecycle after_all
    lifecycle-Acts s s' h =
        let (_, t, initialized, h1) = bind_ok _ _ s tt s' h in
        let (_, u, told, h2) = bind_ok _ _ t tt s' h1 in
        let (_, v, configured, h3) = bind_ok _ _ u tt s' h2 in
        let (_, w, policy_told, h4) = bind_ok _ _ v tt s' h3 in
        four_then _ _ _ _ s t u v w s'
          (invoke-Acts run exists save print source hooks_id config.network "initialize" _ s t
            initialized)
          (println-Acts run exists save print _ t u told)
          (invoke-Acts run exists save print source hooks_id config.network "set_config" _ u v
            configured)
          (println-Acts run exists save print _ v w policy_told)
          (bind_Acts config source hooks_id w s' h4)
      where
        four_then :
            (i c : List String) (l m : String) (s t u v w x : S)
            → t ≡ (run i s).1
            → u ≡ print l t
            → v ≡ (run c u).1
            → w ≡ print m v
            → x
              ≡ after_all run exists save print
                  (flat_map (bind_acts config source hooks_id) config.tokens)
                  w
            → x
              ≡ after_all run exists save print
                  (ran i
                    ∷ said l
                    ∷ ran c
                    ∷ said m
                    ∷ flat_map (bind_acts config source hooks_id) config.tokens)
                  s
        four_then i c l m s t u v w x e1 e2 e3 e4 e5 =
            e5
            ∙ ap
                (after_all run exists save print
                  (flat_map (bind_acts config source hooks_id) config.tokens))
                (e4 ∙ ap (print m) (e3 ∙ ap (λ y. (run c y).1) (e2 ∙ ap (print l) e1)))

  pub resolve_policy-Uses :
      (config : Config) (source : String) (wasm blocked policy_id : Option String)
      (no_policy : Bool) (policy : Option String) (s s' : S)
      → resolve_policy run exists save print config source wasm blocked policy_id no_policy s
        ≡ (ok policy, s')
      → Uses run config source wasm blocked policy_id no_policy policy s
  unfolding deploy_policy
  resolve_policy-Uses config source none blocked none true policy s s' h = cc (h)
  resolve_policy-Uses config source none blocked (some id) true policy s s' h = cc (h)
  resolve_policy-Uses config source (some wasm) blocked none true policy s s' h = cc (h)
  resolve_policy-Uses config source (some wasm) blocked (some id) true policy s s' h = cc (h)
  resolve_policy-Uses config source none blocked (some id) false policy s s' h = cc (h)
  resolve_policy-Uses config source (some wasm) blocked (some id) false policy s s' h = cc (h)
  resolve_policy-Uses config source none blocked none false policy s s' h = cc (h)
  resolve_policy-Uses config source (some wasm) blocked none false policy s s' h =
      let (pid, same_policy, deployed) = fresh_lem config source wasm blocked policy s s' h in
      (
        pid,
        sym same_policy,
        (deploy_policy_lem source config.network wasm blocked s pid s' deployed).0,
        (deploy_policy_lem source config.network wasm blocked s pid s' deployed).1,
      )
