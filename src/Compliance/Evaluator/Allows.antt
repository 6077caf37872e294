-- ===== src/Compliance/Evaluator/Allows.antt =====
-- When crates/compliance allows an operation, and when it cannot.
use safeguard_hooks.Prelude.{
  sym, subst, ◌≡◌, ◌↔◌, refl, ◌∙◌, Bool, true, false, Option, none, some, List, zip, length, ◌==◌,
  if◌then◌else◌, All, ap, flat_map,
}
use safeguard_hooks.HookCore.Party.{PartyRole}
use safeguard_hooks.HookCore.Operation.{Operation, parties}
use safeguard_hooks.HookCore.Decision.{ComplianceDecision, allow}
use safeguard_hooks.Host.{Host}
use safeguard_hooks.Host.Run.{done}
use safeguard_hooks.Storage.Keys.{ComplianceConfig, TokenBinding}
use safeguard_hooks.Storage.Registry.{Registry, Shows}
use safeguard_hooks.Compliance.Evaluator.{evaluate}
use safeguard_hooks.Compliance.Evaluator.Checks.{
  Check, checks_of, judge, judge_bound, judge_configured, verdict,
}
use safeguard_hooks.Compliance.Evaluator.Refines.{evaluate-Judges}
use safeguard_hooks.Compliance.Evaluator.Questions.{questions_of, AllTrue}
use safeguard_hooks.Compliance.Evaluator.Asking.{asked, asked_all}
use safeguard_hooks.Compliance.Evaluator.Agreement.{Agreed, judge-allow, judge-allow-needs}
use safeguard_hooks.Compliance.Evaluator.Clearance.{Cleared, Thawed, parties_pass, parties-Free}

module _ ⦃H : Host⦄ (r : Registry H.Address H.Outside) (token : H.Address) (op : Operation)
    (accounts : List H.Address) where
  open H use {Address, Env, Outside}

  abbrev pub parties_of : List (PartyRole × Address)
  parties_of = zip (parties op) accounts

  -- The contract is configured, the token is bound, each role of the operation has an account, and
  -- then this holds.
  abbrev pub InScope : (ComplianceConfig Address → TokenBinding Address → Type 0) → Type 0
  InScope P =
      (config : ComplianceConfig Address) × (b : TokenBinding Address) × (r.config ≡ some config)
      × (r.binding token ≡ some b)
      × ((length (parties op) == length accounts) ≡ true)
      × P config b

  -- No holder is frozen, and each question about the parties is answered `true` in the world that
  -- the questions before it leave.
  abbrev pub AllGranted : ComplianceConfig Address → TokenBinding Address → Type 0
  AllGranted config b =
      All (Thawed r.frozen token) parties_of
      × AllTrue (questions_of token config b.sac parties_of) r.outside

  -- Each party is cleared, by answers to the questions of this very evaluation.
  abbrev pub AllCleared : ComplianceConfig Address → TokenBinding Address → Type 0
  AllCleared config b =
      All
        (Cleared r.frozen token config b.sac
          (Agreed (questions_of token config b.sac parties_of) r.outside))
        parties_of

  abbrev all_checks : ComplianceConfig Address → TokenBinding Address → List (Check Address)
  all_checks config b = flat_map (checks_of r.frozen token config b.sac) (zip (parties op) accounts)

  -- An allowing verdict comes from the checks alone.
  abbrev Judged : ComplianceConfig Address → TokenBinding Address → Type 0
  Judged config b = (judge (all_checks config b) r.outside).0 ≡ allow

  verdict_allow : ((verdict r token op accounts).0 ≡ allow) ↔ InScope Judged
  unfolding verdict
  verdict_allow = (to r.config refl, from)
    where
      arity :
          (b : Bool) (p q : ComplianceDecision × Outside)
          → (if b then p else q).0 ≡ allow
          → (q.0 ≡ allow → b ≡ true)
          → (b ≡ true) × (p.0 ≡ allow)
      arity true p q h never = (refl, h)
      arity false p q h never = cc (never h)

      to_bound :
          (config : ComplianceConfig Address) (o : Option (TokenBinding Address))
          → r.config ≡ some config
          → r.binding token ≡ o
          → (judge_bound r token op accounts config o).0 ≡ allow
          → InScope Judged
      to_bound config none e f h = cc
      to_bound config (some b) e f h =
          let (right, allowed) = arity _ _ _ h (λ x. cc) in (config, b, e, f, right, allowed)

      to :
          (o : Option (ComplianceConfig Address))
          → r.config ≡ o
          → (judge_configured r token op accounts o).0 ≡ allow
          → InScope Judged
      to none e h = cc
      to (some config) e h = to_bound config (r.binding token) e refl h

      from : InScope Judged → (judge_configured r token op accounts r.config).0 ≡ allow
      from (config, b, e, f, right, allowed) =
          ap (λ o. (judge_configured r token op accounts o).0) e
          ∙ ap (λ o. (judge_bound r token op accounts config o).0) f
          ∙ rw right allowed

  -- The checks of the parties, by what they stand for.
  granted_iff :
      (config : ComplianceConfig Address) (b : TokenBinding Address)
      → Judged config b ↔ AllGranted config b
  granted_iff config b =
      let (to, from) = judge-allow (all_checks config b) r.outside in
      let (thaw, free) = parties-Free r.frozen token config b.sac parties_of in
      let same_questions = asked_all r.frozen token config b.sac parties_of in
      (
        λ h.
            let (own, all) = to h in
            (thaw own, subst (λ qs. AllTrue qs r.outside) same_questions all),
        λ h. from (free h.0, subst (λ qs. AllTrue qs r.outside) (sym same_questions) h.1),
      )

  -- An allowing verdict has cleared each party.
  pub verdict_clears : (verdict r token op accounts).0 ≡ allow → InScope AllCleared
  verdict_clears h =
      let (config, b, c, f, right, allowed) = verdict_allow.0 h in
      (
        config,
        b,
        c,
        f,
        right,
        subst (λ qs. All (Cleared r.frozen token config b.sac (Agreed qs r.outside)) parties_of)
            (asked_all r.frozen token config b.sac parties_of)
            ((parties_pass r.frozen token config b.sac
                (Agreed (asked (all_checks config b)) r.outside) parties_of).0
              (judge-allow-needs (all_checks config b) r.outside allowed)),
      )

  module _ (e : Env) (shown : Shows e r) where
    allow_verdict :
        (e' : Env)
        → evaluate token op accounts e ≡ done e' allow
        → (verdict r token op accounts).0 ≡ allow
    allow_verdict e' ran =
        let (_, ran', _) = (evaluate-Judges r token op accounts).ends e shown in cc

    -- An evaluation allows exactly when the contract is configured, the token is bound, each role
    -- has an account, no party that holds funds is frozen, and each question of the operation is
    -- answered `true` in the world that the questions before it leave: for each party in turn that
    -- of the policy, if there is one, and, if the party holds funds, passthrough is on and the token
    -- has a SAC, that of the SAC.
    pub allow_iff :
        ((e' : Env) × (evaluate token op accounts e ≡ done e' allow)) ↔ InScope AllGranted
    allow_iff = (
      λ (e', ran).
          let (config, b, c, f, right, allowed) = verdict_allow.0 (allow_verdict e' ran) in
          (config, b, c, f, right, (granted_iff config b).0 allowed),
      λ (config, b, c, f, right, granted).
          let (e', ran, _) = (evaluate-Judges r token op accounts).ends e shown in
          let allowed =
            verdict_allow.1 (config, b, c, f, right, (granted_iff config b).1 granted) in
          (e', ran ∙ ap (done e') allowed),
    )
