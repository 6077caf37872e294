-- ===== src/Compliance/Evaluator/Denials.antt =====
-- Why crates/compliance denies an operation: the reason is true of the state.
use mathlib.Core.List.{Memᴰ}
use mathlib.Core.List
use safeguard_hooks.Prelude.{
  and_true, ◌≡◌, ◌⊎◌, inl, inr, refl, Bool, true, false, ◌&&◌, Option, none, some, List, [], ◌∷◌,
  zip, length, ◌==◌, if◌then◌else◌, flat_map, subst,
}
use safeguard_hooks.HookCore.Party.{PartyRole}
use safeguard_hooks.HookCore.Operation.{Operation, parties}
use safeguard_hooks.HookCore.Reason.{
  RejectionReason, account_frozen, policy_unavailable, sac_authorization_failed,
  invalid_configuration, unbound_token,
}
use safeguard_hooks.HookCore.Decision.{deny}
use safeguard_hooks.Host.{Host}
use safeguard_hooks.Host.Run.{done}
use safeguard_hooks.Storage.Keys.{ComplianceConfig, TokenBinding}
use safeguard_hooks.Storage.Registry.{Registry, Shows}
use safeguard_hooks.PolicyClient.{policy_fn}
use safeguard_hooks.Compliance.Sac.{sac_authorized_fn}
use safeguard_hooks.Compliance.Evaluator.{evaluate}
use safeguard_hooks.Compliance.Evaluator.Checks.{
  refuse_if, denial_of, is_holder, ask_policy, ask_sac, checks_of, judge, judge_bound,
  judge_configured, verdict,
}
use safeguard_hooks.Compliance.Evaluator.Questions.{Question, questions_of}
use safeguard_hooks.Compliance.Evaluator.Asking.{asked_all}
use safeguard_hooks.Compliance.Evaluator.Refines.{evaluate-Judges}
use safeguard_hooks.Compliance.Evaluator.Failures.{
  Refused, Unanswered, Fails, SomeFails, judge-Fails,
}

module _ ⦃H : Host⦄ where
  open H use {Address, Env, Outside, answers, after_call}

  module _ (frozen : Address → Address → Bool) (token : Address) (config : ComplianceConfig Address)
      (sac : Option Address) (qs : List (Question Address)) (start : Outside) where
    -- What is true of a party that an operation is denied for.
    pub data Blamed : PartyRole × Address → RejectionReason → Type 0 where
      frozen_holder :
          {role : PartyRole} {who : Address}
          → is_holder role ≡ true
          → frozen token who ≡ true
          → Blamed (role, who) account_frozen
      policy_refuses :
          {role : PartyRole} {who policy : Address}
          → config.policy ≡ some policy
          → Refused qs start policy policy_fn (who ∷ token ∷ [])
          → Blamed (role, who) (denial_of role)
      policy_silent :
          {role : PartyRole} {who policy : Address}
          → config.policy ≡ some policy
          → Unanswered qs start policy policy_fn (who ∷ token ∷ [])
          → Blamed (role, who) policy_unavailable
      sac_refuses :
          {role : PartyRole} {who asset : Address}
          → is_holder role ≡ true
          → config.sac_passthrough ≡ true
          → sac ≡ some asset
          → Refused qs start asset sac_authorized_fn (who ∷ [])
            ⊎ Unanswered qs start asset sac_authorized_fn (who ∷ [])
          → Blamed (role, who) sac_authorization_failed

    freeze_blames :
        (role : PartyRole) (who : Address) (why : RejectionReason)
        → Fails qs start why (refuse_if (is_holder role && frozen token who) account_frozen)
        → Blamed (role, who) why
    freeze_blames role who why (failing, e) =
        let (p, q) = (and_true _ _).0 failing in subst (Blamed (role, who)) e (frozen_holder p q)

    policy_blames :
        (role : PartyRole) (who : Address) (why : RejectionReason) (o : Option Address)
        → config.policy ≡ o
        → SomeFails qs start why (ask_policy token role who o)
        → Blamed (role, who) why
    policy_blames role who why none e (x, at, f) = absurd (List.Memᴰ.not-nil at)
    policy_blames role who why (some policy) e (x, at, f) =
        elim (subst (Fails qs start why) (List.Memᴰ.eq_of_singleton at) f) [
          | inl (no_leave, p) ↦ subst (Blamed (role, who)) p (policy_refuses e no_leave)
          | inr (silence, p) ↦ subst (Blamed (role, who)) p (policy_silent e silence)
        ]

    sac_blames :
        (role : PartyRole) (who : Address) (why : RejectionReason) (b : Bool) (o : Option Address)
        → (is_holder role && config.sac_passthrough) ≡ b
        → sac ≡ o
        → SomeFails qs start why (ask_sac b who o)
        → Blamed (role, who) why
    sac_blames role who why false o d e (x, at, f) = absurd (List.Memᴰ.not-nil at)
    sac_blames role who why true none d e (x, at, f) = absurd (List.Memᴰ.not-nil at)
    sac_blames role who why true (some asset) d e (x, at, f) =
        let (holder, passthrough) = (and_true _ _).0 d in
        elim (subst (Fails qs start why) (List.Memᴰ.eq_of_singleton at) f) [
          | inl (no_leave, p) ↦
              subst (Blamed (role, who)) p (sac_refuses holder passthrough e (inl no_leave))
          | inr (silence, p) ↦
              subst (Blamed (role, who)) p (sac_refuses holder passthrough e (inr silence))
        ]

    party_blames :
        (party : PartyRole × Address) (why : RejectionReason)
        → SomeFails qs start why (checks_of frozen token config sac party)
        → Blamed party why
    party_blames (role, who) why (x, at, f) = elim (List.Memᴰ.cases_cons at) [
      | inl p ↦ freeze_blames role who why (subst (Fails qs start why) p f)
      | inr later ↦ elim (List.Memᴰ.append_cases (ask_policy token role who config.policy) later) [
        | inl there ↦ policy_blames role who why config.policy refl (x, there, f)
        | inr there ↦ sac_blames role who why _ sac refl refl (x, there, f)
      ]
    ]

    parties_blame :
        (ps : List (PartyRole × Address)) (why : RejectionReason)
        → SomeFails qs start why (flat_map (checks_of frozen token config sac) ps)
        → (party : PartyRole × Address) × Memᴰ party ps × Blamed party why
    unfolding flat_map
    parties_blame [] why (x, at, f) = absurd (List.Memᴰ.not-nil at)
    parties_blame (p ∷ ps) why (x, at, f) =
        elim (List.Memᴰ.append_cases (checks_of frozen token config sac p) at) [
          | inl there ↦ (p, Memᴰ.head refl, party_blames p why (x, there, f))
          | inr there ↦
              let (party, at', blamed) = parties_blame ps why (x, there, f) in
              (party, Memᴰ.tail at', blamed)
        ]

  module _ (r : Registry Address Outside) (token : Address) (op : Operation)
      (accounts : List Address) where
    -- What is true where an operation is denied for `why`.
    pub data Justified (why : RejectionReason) : Type 0 where
      not_configured : r.config ≡ none → why ≡ invalid_configuration → Justified why
      not_bound : r.binding token ≡ none → why ≡ unbound_token → Justified why
      wrong_arity :
          (length (parties op) == length accounts) ≡ false
          → why ≡ invalid_configuration
          → Justified why
      blames :
          (config : ComplianceConfig Address) (b : TokenBinding Address)
          (party : PartyRole × Address)
          → r.config ≡ some config
          → r.binding token ≡ some b
          → Memᴰ party (zip (parties op) accounts)
          → Blamed r.frozen token config b.sac
              (questions_of token config b.sac (zip (parties op) accounts))
              r.outside
              party
              why
          → Justified why

    by_arity :
        (config : ComplianceConfig Address) (b : TokenBinding Address) (why : RejectionReason)
        (right : Bool)
        → r.config ≡ some config
        → r.binding token ≡ some b
        → (length (parties op) == length accounts) ≡ right
        → (if right
            then judge
                (flat_map (checks_of r.frozen token config b.sac) (zip (parties op) accounts))
                r.outside
            else (deny invalid_configuration, r.outside)).0
          ≡ deny why
        → Justified why
    by_arity config b why true c f a h =
        let ps = zip (parties op) accounts in
        let cs = flat_map (checks_of r.frozen token config b.sac) ps in
        let (party, at, blamed) =
          parties_blame r.frozen token config b.sac (questions_of token config b.sac ps) r.outside
            ps why
            (subst (λ qs. SomeFails qs r.outside why cs) (asked_all r.frozen token config b.sac ps)
              (judge-Fails cs r.outside why h)) in
        blames config b party c f at blamed
    by_arity config b why false c f a h = wrong_arity a cc

    by_binding :
        (config : ComplianceConfig Address) (o : Option (TokenBinding Address))
        (why : RejectionReason)
        → r.config ≡ some config
        → r.binding token ≡ o
        → (judge_bound r token op accounts config o).0 ≡ deny why
        → Justified why
    by_binding config none why c f h = not_bound f cc
    by_binding config (some b) why c f h = by_arity config b why _ c f refl h

    by_config :
        (o : Option (ComplianceConfig Address)) (why : RejectionReason)
        → r.config ≡ o
        → (judge_configured r token op accounts o).0 ≡ deny why
        → Justified why
    by_config none why c h = not_configured c cc
    by_config (some config) why c h = by_binding config (r.binding token) why c refl h

    -- A denial is justified by its reason: no configuration or the wrong number of accounts for
    -- `invalid_configuration`, no binding for `unbound_token`, and else a party of the operation that
    -- holds funds and is frozen, or about which a question of this evaluation came up after answers
    -- that were all `true`, and was itself answered `false`, or by no Boolean. The reason is then
    -- that of the gate: for a `false` of the policy `spender_not_authorized` where the party is the
    -- spender and `policy_denied` else, `policy_unavailable` for no Boolean of the policy, and
    -- `sac_authorization_failed` for both from the SAC, which is asked about holders only.
    pub denial-Justified :
        (why : RejectionReason) (e e' : Env)
        → Shows e r
        → evaluate token op accounts e ≡ done e' (deny why)
        → Justified why
    unfolding verdict
    denial-Justified why e e' shown ran =
        let (_, ran', _) = (evaluate-Judges r token op accounts).ends e shown in
        by_config r.config why refl cc
