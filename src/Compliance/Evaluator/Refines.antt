-- ===== src/Compliance/Evaluator/Refines.antt =====
-- The evaluator gives the verdict of the flat list of checks, and touches nothing but what is
-- outside of the contract.
use safeguard_hooks.Prelude.{
  ◌≡◌, refl, sym, subst, Bool, true, false, ◌&&◌, Option, none, some, List, [], ◌∷◌, ◌++◌, zip,
  flat_map, is_some, ok, err, if◌then◌else◌,
}
use safeguard_hooks.HookCore.Party.{PartyRole, holds_funds}
use safeguard_hooks.HookCore.Operation.{Operation, parties}
use safeguard_hooks.HookCore.Reason.{account_frozen, invalid_configuration, unbound_token}
use safeguard_hooks.HookCore.Decision.{ComplianceDecision, allow, deny, is_allowed}
use safeguard_hooks.Host.{Host}
use safeguard_hooks.Host.Run.{M, pure, ◌>>=◌}
use safeguard_hooks.Storage.Keys.{ComplianceConfig, TokenBinding}
use safeguard_hooks.Storage.Registry.{Registry, Does, Does-pure, Does-bind, Does-value}
use safeguard_hooks.Storage.Entries.Reads.{compliance_config-Does, token_binding-Does}
use safeguard_hooks.Authorization.Gates.{require_token_bound-Does}
use safeguard_hooks.Compliance.Evaluator.{
  policy_gate, sac_gate, unless_denied, screen_party, screen_parties, evaluate_scoped,
  evaluate_configured, evaluate,
}
use safeguard_hooks.Compliance.Evaluator.Checks.{
  Check, is_holder, ask_policy, ask_sac, checks_of, judge, then_judge, judge-append, judge_bound,
  judge_configured, verdict,
}
use safeguard_hooks.Compliance.Evaluator.Gates.{
  Judges, freeze_gate-Does, policy_gate-Judges, Judges-then, sac_part-Judges, holds_funds-is_holder,
}

module _ ⦃H : Host⦄ where
  open H use {Address, Outside}

  module _ (token : Address) (config : ComplianceConfig Address) (sac : Option Address) where
    -- the checks of one party, after its freeze flag
    later_checks : PartyRole → Address → List (Check Address)
    later_checks role who =
        ask_policy token role who config.policy
        ++ ask_sac (is_holder role && config.sac_passthrough) who sac

    later_gates : PartyRole → Address → M ComplianceDecision
    later_gates role who = do
      screened ← policy_gate token role who config.policy
      unless_denied screened
          (if holds_funds role && config.sac_passthrough then sac_gate who sac else pure allow)

    later_gates-Judges :
        (r : Registry Address Outside) (role : PartyRole) (who : Address)
        → Judges (later_gates role who) r (judge (later_checks role who) r.outside)
    unfolding later_gates later_checks
    later_gates-Judges r role who =
        rw (holds_funds-is_holder role, judge-append)
          (Judges-then _ r _ _ (policy_gate-Judges r token role who config.policy)
            λ w. sac_part-Judges (record r { outside = w }) _ who sac)

    screen_party-Judges :
        (r : Registry Address Outside) (role : PartyRole) (who : Address)
        → Judges
            (screen_party token role who config sac)
            r
            (judge (checks_of r.frozen token config sac (role, who)) r.outside)
    unfolding screen_party later_gates later_checks judge
    screen_party-Judges r role who =
        Does-bind _ (freeze_gate-Does r token role who)
          (by_cases (is_holder role && r.frozen token who))
      where
        by_cases :
            (frozen : Bool)
            → Judges (if frozen then pure (deny account_frozen) else later_gates role who) r (
                if frozen
                then (deny account_frozen, r.outside)
                else judge (later_checks role who) r.outside)
        by_cases true = Does-pure _ r
        by_cases false = later_gates-Judges r role who

    denied_stays :
        (r : Registry Address Outside) (ps : List (PartyRole × Address)) (why : _)
        → Does (screen_parties token config sac ps (deny why)) r (deny why) r
    unfolding screen_parties is_allowed
    denied_stays r [] why = Does-pure _ r
    denied_stays r (p ∷ ps) why = Does-pure _ r

    next-Judges :
        (f : ComplianceDecision → M ComplianceDecision) {m : M ComplianceDecision}
        (r : Registry Address Outside) (cs : List (Check Address))
        (p : ComplianceDecision × Outside)
        → Judges m r p
        → ((w : Outside) → Judges (f allow) (record r { outside = w }) (judge cs w))
        → ((w : Outside) (why : _)
            → Does (f (deny why)) (record r { outside = w }) (deny why) (record r { outside = w }))
        → Judges (m >>= f) r (then_judge p cs)
    next-Judges f r cs (allow, w) dm da dd = Does-bind f dm (da w)
    next-Judges f r cs (deny why, w) dm da dd = Does-bind f dm (dd w why)

    screen_parties-Judges :
        (r : Registry Address Outside) (ps : List (PartyRole × Address))
        → Judges
            (screen_parties token config sac ps allow)
            r
            (judge (flat_map (checks_of r.frozen token config sac) ps) r.outside)
    unfolding screen_parties is_allowed flat_map judge
    screen_parties-Judges r [] = Does-pure allow r
    screen_parties-Judges r ((role, who) ∷ ps) =
        subst (Judges (screen_parties token config sac ((role, who) ∷ ps) allow) r)
          (sym (judge-append (checks_of r.frozen token config sac (role, who)) _ r.outside))
          (next-Judges _ r _ _ (screen_party-Judges r role who)
            (λ w. screen_parties-Judges (record r { outside = w }) ps)
            (λ w why. denied_stays (record r { outside = w }) ps why))

  module _ (r : Registry Address Outside) (token : Address) (op : Operation)
      (accounts : List Address) where
    by_arity :
        (config : ComplianceConfig Address) (sac : Option Address) (right : Bool)
        → Judges
            (if right
              then screen_parties token config sac (zip (parties op) accounts) allow
              else pure (deny invalid_configuration))
            r
            (if right
              then judge
                  (flat_map (checks_of r.frozen token config sac) (zip (parties op) accounts))
                  r.outside
              else (deny invalid_configuration, r.outside))
    by_arity config sac true = screen_parties-Judges token config sac r _
    by_arity config sac false = Does-pure _ r

    evaluate_scoped-Judges :
        (config : ComplianceConfig Address) (o : Option (TokenBinding Address))
        → r.binding token ≡ o
        → Judges
            (evaluate_scoped token op accounts config
              (if is_some o then ok tt else err unbound_token))
            r
            (judge_bound r token op accounts config o)
    unfolding evaluate_scoped
    evaluate_scoped-Judges config none e = Does-pure _ r
    evaluate_scoped-Judges config (some b) e =
        Does-bind _ (Does-value (token_binding-Does r token) e) (by_arity config b.sac _)

    evaluate_configured-Judges :
        (o : Option (ComplianceConfig Address))
        → Judges
            (evaluate_configured token op accounts o)
            r
            (judge_configured r token op accounts o)
    unfolding evaluate_configured
    evaluate_configured-Judges none = Does-pure _ r
    evaluate_configured-Judges (some config) =
        Does-bind _ (require_token_bound-Does r token)
          (evaluate_scoped-Judges config (r.binding token) refl)

    -- From any environment the evaluator gives the verdict of the checks, in order, and changes
    -- nothing of the contract's state.
    pub evaluate-Judges : Judges (evaluate token op accounts) r (verdict r token op accounts)
    unfolding evaluate verdict
    evaluate-Judges = Does-bind _ (compliance_config-Does r) (evaluate_configured-Judges r.config)
