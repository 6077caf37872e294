-- ===== src/Compliance/Evaluator/Budget.antt =====
-- Which other contracts an evaluation calls, about whom, and how often.
use safeguard_hooks.Prelude.{
  ◌≤◌, ◌≡◌, refl, subst, Bool, true, false, Option, none, some, List, [], zip, length, ◌==◌,
  flat_map, if◌then◌else◌, arith,
}
use safeguard_hooks.HookCore.Operation.{Operation, parties}
use safeguard_hooks.HookCore.Reason.{invalid_configuration}
use safeguard_hooks.HookCore.Decision.{ComplianceDecision, deny}
use safeguard_hooks.Host.{Host}
use safeguard_hooks.Host.Run.{done}
use safeguard_hooks.Storage.Keys.{ComplianceConfig, TokenBinding}
use safeguard_hooks.Storage.Registry.{Registry, Shows}
use safeguard_hooks.Compliance.Evaluator.{evaluate}
use safeguard_hooks.Compliance.Evaluator.Refines.{evaluate-Judges}
use safeguard_hooks.Compliance.Evaluator.Checks.{checks_of, judge, judge_configured, verdict}
use safeguard_hooks.Compliance.Evaluator.Questions.{
  Question, questions_of, budget, Asked, Asked-nothing,
}
use safeguard_hooks.Compliance.Evaluator.Asking.{
  roles_budget-parties, asked_all, length-questions_of, judge-Asked,
}

module _ ⦃H : Host⦄ (r : Registry H.Address H.Outside) (token : H.Address) (op : Operation)
    (accounts : List H.Address) where
  open H use {Address, Env, Outside}

  -- The questions that there are to ask: none without a configuration, a binding and one account
  -- for each role.
  abbrev pub planned_for :
      Option (ComplianceConfig Address) → Option (TokenBinding Address) → List (Question Address)
  planned_for none o = []
  planned_for (some config) none = []
  planned_for (some config) (some b) =
      if length (parties op) == length accounts
      then questions_of token config b.sac (zip (parties op) accounts)
      else []

  abbrev pub planned : List (Question Address)
  planned = planned_for r.config (r.binding token)

  arity_Asked :
      (config : ComplianceConfig Address) (b : TokenBinding Address) (right : Bool)
      → Asked
          (if right then questions_of token config b.sac (zip (parties op) accounts) else [])
          r.outside
          (if right
            then judge
                (flat_map (checks_of r.frozen token config b.sac) (zip (parties op) accounts))
                r.outside
            else (deny invalid_configuration, r.outside)).1
  arity_Asked config b true =
      let cs = flat_map (checks_of r.frozen token config b.sac) (zip (parties op) accounts) in
      subst (λ qs. Asked qs r.outside (judge cs r.outside).1)
        (asked_all r.frozen token config b.sac (zip (parties op) accounts))
        (judge-Asked cs r.outside)
  arity_Asked config b false = Asked-nothing [] r.outside

  configured_Asked :
      (c : Option (ComplianceConfig Address)) (o : Option (TokenBinding Address))
      → r.binding token ≡ o
      → Asked (planned_for c o) r.outside (judge_configured r token op accounts c).1
  configured_Asked none o e = Asked-nothing [] r.outside
  configured_Asked (some config) none e = rw e (Asked-nothing [] r.outside)
  configured_Asked (some config) (some b) e = rw e (arity_Asked config b _)

  pub verdict-Asked : Asked planned r.outside (verdict r token op accounts).1
  unfolding verdict
  verdict-Asked = configured_Asked r.config (r.binding token) refl

  few :
      (c : Option (ComplianceConfig Address)) (o : Option (TokenBinding Address))
      → length (planned_for c o) ≤ budget op
  few none o = omega arith
  few (some config) none = omega arith
  few (some config) (some b) = by_arity _
    where
      by_arity :
          (right : Bool)
          → length
              (if right then questions_of token config b.sac (zip (parties op) accounts) else [])
            ≤ budget op
      by_arity true = omega (
        arith,
        length-questions_of token config b.sac (parties op) accounts,
        roles_budget-parties op,
      )
      by_arity false = omega arith

  -- From any environment an evaluation returns, with the contract's own state untouched, and on the
  -- way it has asked the first of the planned questions, in their order, and no others. Planned are,
  -- for each party in turn, one question about it to the policy, if one is configured, and one about
  -- it to the SAC, if the party holds funds, passthrough is on and the token has a SAC; there are none
  -- without a configuration, a binding and one account for each role, and never more than the
  -- operation's budget: two for `register` and `merge`, five for `transfer_from`, four for the others.
  pub evaluate-budget :
      (e : Env)
      → Shows e r
      → (decision : ComplianceDecision) × (e' : Env) × (w : Outside) × (evaluate token op accounts e
          ≡ done e' decision)
        × Shows e' (record r { outside = w })
        × Asked planned r.outside w
        × (length planned ≤ budget op)
  evaluate-budget e shown =
      let (e', ran, shown') = (evaluate-Judges r token op accounts).ends e shown in
      (_, e', _, ran, shown', verdict-Asked, few r.config (r.binding token))
