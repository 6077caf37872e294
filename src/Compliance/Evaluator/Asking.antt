-- ===== src/Compliance/Evaluator/Asking.antt =====
-- The checks of an evaluation ask its questions, in their order, and not more than its budget.
use safeguard_hooks.Prelude.{
  ◌+◌, ◌≤◌, ◌≡◌, refl, Bool, true, false, ◌&&◌, Option, none, some, List, [], ◌∷◌, ◌++◌, length,
  length-append, ap, ◌∙◌, zip, flat_map, if◌then◌else◌, arith,
}
use safeguard_hooks.HookCore.Party.{PartyRole, account, from, to, spender}
use safeguard_hooks.HookCore.Operation.{Operation, parties}
use safeguard_hooks.HookCore.Decision.{ComplianceDecision}
use safeguard_hooks.Host.{Host, Answer, value, malformed, failed}
use safeguard_hooks.Storage.Keys.{ComplianceConfig}
use safeguard_hooks.Compliance.Evaluator.Checks.{
  Check, refuse_if, ask, is_holder, ask_policy, ask_sac, checks_of, heard, judge,
}
use safeguard_hooks.Compliance.Evaluator.Questions.{
  Question, policy_questions, sac_questions, questions_about, questions_of, budget, role_budget,
  roles_budget, Asked, Asked-nothing, Asked-more,
}

pub roles_budget-parties : (op : Operation) → roles_budget (parties op) ≤ budget op
unfolding parties
roles_budget-parties op = ground arith

role_budget_covers :
    (role : PartyRole) (b : Bool) → 1 + (if is_holder role && b then 1 else 0) ≤ role_budget role
role_budget_covers spender b = omega arith
role_budget_covers account true = omega arith
role_budget_covers account false = omega arith
role_budget_covers from true = omega arith
role_budget_covers from false = omega arith
role_budget_covers to true = omega arith
role_budget_covers to false = omega arith

module _ {A : Type 0} where
  -- The questions among some checks.
  abbrev pub asked : List (Check A) → List (Question A)
  asked [] = []
  asked (refuse_if b why ∷ cs) = asked cs
  asked (ask c fn args denied unavailable ∷ cs) =
      record { contract = c; fn = fn; args = args } ∷ asked cs

  asked-append : (bs cs : List (Check A)) → asked (bs ++ cs) ≡ asked bs ++ asked cs
  asked-append [] cs = refl
  asked-append (refuse_if b why ∷ bs) cs = asked-append bs cs
  asked-append (ask c fn args denied unavailable ∷ bs) cs =
      ap (λ qs. record { contract = c; fn = fn; args = args } ∷ qs) (asked-append bs cs)

  asked-ask_policy :
      (token : A) (role : PartyRole) (who : A) (policy : Option A)
      → asked (ask_policy token role who policy) ≡ policy_questions token who policy
  asked-ask_policy token role who none = refl
  asked-ask_policy token role who (some p) = refl

  asked-ask_sac :
      (b : Bool) (who : A) (sac : Option A) → asked (ask_sac b who sac) ≡ sac_questions b who sac
  asked-ask_sac true who none = refl
  asked-ask_sac true who (some s) = refl
  asked-ask_sac false who sac = refl

  module _ (frozen : A → A → Bool) (token : A) (config : ComplianceConfig A) (sac : Option A) where
    asked-checks_of :
        (party : PartyRole × A)
        → asked (checks_of frozen token config sac party) ≡ questions_about token config sac party
    asked-checks_of (role, who) =
        asked-append (ask_policy token role who config.policy) _
        ∙ ap (λ qs. qs ++ asked (ask_sac (is_holder role && config.sac_passthrough) who sac))
            (asked-ask_policy token role who config.policy)
        ∙ ap (λ qs. policy_questions token who config.policy ++ qs)
            (asked-ask_sac (is_holder role && config.sac_passthrough) who sac)

    -- The checks of an operation ask its questions, in their order.
    pub asked_all :
        (ps : List (PartyRole × A))
        → asked (flat_map (checks_of frozen token config sac) ps) ≡ questions_of token config sac ps
    unfolding flat_map
    asked_all [] = refl
    asked_all (p ∷ ps) =
        asked-append (checks_of frozen token config sac p) _
        ∙ ap (λ qs. qs ++ asked (flat_map (checks_of frozen token config sac) ps))
            (asked-checks_of p)
        ∙ ap (λ qs. questions_about token config sac p ++ qs) (asked_all ps)

  length-policy_questions :
      (token who : A) (policy : Option A) → length (policy_questions token who policy) ≤ 1
  length-policy_questions token who none = omega arith
  length-policy_questions token who (some p) = omega arith

  length-sac_questions :
      (b : Bool) (who : A) (sac : Option A)
      → length (sac_questions b who sac) ≤ (if b then 1 else 0)
  length-sac_questions true who none = omega arith
  length-sac_questions true who (some s) = omega arith
  length-sac_questions false who sac = omega arith

  module _ (token : A) (config : ComplianceConfig A) (sac : Option A) where
    length-questions_about :
        (role : PartyRole) (who : A)
        → length (questions_about token config sac (role, who)) ≤ role_budget role
    length-questions_about role who =
        let b = is_holder role && config.sac_passthrough in
        omega (
          arith,
          length-append (policy_questions token who config.policy) (sac_questions b who sac),
          length-policy_questions token who config.policy,
          length-sac_questions b who sac,
          role_budget_covers role config.sac_passthrough,
        )

    pub length-questions_of :
        (roles : List PartyRole) (accounts : List A)
        → length (questions_of token config sac (zip roles accounts)) ≤ roles_budget roles
    unfolding flat_map zip
    length-questions_of [] accounts = omega arith
    length-questions_of (r ∷ rs) [] = omega arith
    length-questions_of (r ∷ rs) (a ∷ accounts) = omega (
      arith,
      length-append (questions_about token config sac (r, a))
          (questions_of token config sac (zip rs accounts)),
      length-questions_about r a,
      length-questions_of rs accounts,
    )

module _ ⦃H : Host⦄ where
  open H use {Address, Env, Outside, answers, after_call}

  pub judge-Asked : (cs : List (Check Address)) (w : Outside) → Asked (asked cs) w (judge cs w).1
  unfolding judge
  judge-Asked [] w = Asked-nothing [] w
  judge-Asked (refuse_if true why ∷ cs) w = Asked-nothing (asked cs) w
  judge-Asked (refuse_if false why ∷ cs) w = judge-Asked cs w
  judge-Asked (ask c fn args denied unavailable ∷ cs) w =
      Asked-more (record { contract = c; fn = fn; args = args }) (asked cs) w _
        (by_answer (answers w c fn args) (judge cs (after_call w c fn args))
          (judge-Asked cs (after_call w c fn args)))
    where
      by_answer :
          (a : Answer) (p : ComplianceDecision × Outside)
          → Asked (asked cs) (after_call w c fn args) p.1
          → Asked
              (asked cs)
              (after_call w c fn args)
              (heard a denied unavailable (after_call w c fn args) p).1
      by_answer (value true) p h = h
      by_answer (value false) p h = Asked-nothing (asked cs) (after_call w c fn args)
      by_answer malformed p h = Asked-nothing (asked cs) (after_call w c fn args)
      by_answer failed p h = Asked-nothing (asked cs) (after_call w c fn args)
