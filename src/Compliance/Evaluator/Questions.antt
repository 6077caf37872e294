-- ===== src/Compliance/Evaluator/Questions.antt =====
-- What an evaluation asks of other contracts, and the worlds that its questions lead through.
use safeguard_hooks.Prelude.{
  ℕ, ◌+◌, String, ◌≡◌, refl, Bool, true, false, ◌&&◌, Option, none, some, List, [], ◌∷◌, ◌++◌, ap,
  flat_map,
}
use safeguard_hooks.HookCore.Party.{PartyRole, account, from, to, spender}
use safeguard_hooks.HookCore.Operation.{
  Operation, register, deposit, merge, transfer, transfer_from, withdraw,
}
use safeguard_hooks.Host.{Host, Answer, value}
use safeguard_hooks.Storage.Keys.{ComplianceConfig}
use safeguard_hooks.PolicyClient.{policy_fn}
use safeguard_hooks.Compliance.Sac.{sac_authorized_fn}
use safeguard_hooks.Compliance.Evaluator.Checks.{is_holder}

-- A call of another contract.
pub record Question (A : Type 0) : Type 0 where
  pub contract : A
  pub fn : String
  pub args : List A

module _ {A : Type 0} where
  abbrev pub policy_questions : (token who : A) → Option A → List (Question A)
  policy_questions token who none = []
  policy_questions token who (some policy) =
      record { contract = policy; fn = policy_fn; args = who ∷ token ∷ [] } ∷ []

  abbrev pub sac_questions : Bool → (who : A) → Option A → List (Question A)
  sac_questions true who (some sac) =
      record { contract = sac; fn = sac_authorized_fn; args = who ∷ [] } ∷ []
  sac_questions true who none = []
  sac_questions false who sac = []

  -- What is asked about one party: the policy, where there is one, and then, of a holder and with
  -- passthrough on, the SAC, where there is one.
  abbrev pub questions_about :
      (token : A) (config : ComplianceConfig A) (sac : Option A) → PartyRole × A → List (Question A)
  questions_about token config sac (role, who) =
      policy_questions token who config.policy
      ++ sac_questions (is_holder role && config.sac_passthrough) who sac

  -- What is asked about an operation: of each of its parties, in order.
  abbrev pub questions_of :
      (token : A) (config : ComplianceConfig A) (sac : Option A)
      → List (PartyRole × A)
      → List (Question A)
  questions_of token config sac ps = flat_map (questions_about token config sac) ps

-- The most calls of an operation: the policy and the SAC of each party, and of a spender the policy
-- alone.
abbrev pub budget : Operation → ℕ
budget register = 2
budget merge = 2
budget deposit = 4
budget transfer = 4
budget withdraw = 4
budget transfer_from = 5

abbrev pub role_budget : PartyRole → ℕ
role_budget spender = 1
role_budget account = 2
role_budget from = 2
role_budget to = 2

abbrev pub roles_budget : List PartyRole → ℕ
roles_budget [] = 0
roles_budget (r ∷ rs) = role_budget r + roles_budget rs

module _ ⦃H : Host⦄ where
  open H use {Address, Env, Outside, answers, after_call}

  -- What the calls leave behind, in order.
  unfoldable pub after_questions : List (Question Address) → Outside → Outside
  after_questions [] w = w
  after_questions (q ∷ qs) w = after_questions qs (after_call w q.contract q.fn q.args)

  -- Every question is answered `true`, in the world that the ones before it leave.
  unfoldable pub AllTrue : List (Question Address) → Outside → Type 0
  AllTrue [] w = Unit
  AllTrue (q ∷ qs) w =
      (answers w q.contract q.fn q.args ≡ value true)
      × AllTrue qs (after_call w q.contract q.fn q.args)

  -- Among these questions, asked in order from `w` on, this one comes up, after questions that are
  -- all answered `true`, and is then answered so.
  abbrev pub Heard :
      List (Question Address)
      → Outside
      → (contract : Address) (fn : String) (args : List Address) → Answer
      → Type 0
  Heard qs w c fn args answer =
      (before : List (Question Address)) × (rest : List (Question Address)) × (qs
        ≡ before ++ record { contract = c; fn = fn; args = args } ∷ rest)
      × AllTrue before w
      × (answers (after_questions before w) c fn args ≡ answer)

  module _ (q : Question Address) (qs : List (Question Address)) (w : Outside) where
    pub Heard-first :
        (a : Answer)
        → answers w q.contract q.fn q.args ≡ a
        → Heard (q ∷ qs) w q.contract q.fn q.args a
    unfolding AllTrue after_questions
    Heard-first a e = ([], qs, refl, tt, e)

    pub Heard-later :
        (c : Address) (fn : String) (args : List Address) (a : Answer)
        → answers w q.contract q.fn q.args ≡ value true
        → Heard qs (after_call w q.contract q.fn q.args) c fn args a
        → Heard (q ∷ qs) w c fn args a
    unfolding AllTrue after_questions
    Heard-later c fn args a yes_said (before, rest, split, all, e) =
        (q ∷ before, rest, ap (λ x. q ∷ x) split, (yes_said, all), e)

  -- From `w` to `w'` the first of these questions are asked, and no other.
  abbrev pub Asked : List (Question Address) → (w w' : Outside) → Type 0
  Asked qs w w' =
      (first : List (Question Address)) × (rest : List (Question Address)) × (qs ≡ first ++ rest)
      × (w' ≡ after_questions first w)

  pub Asked-nothing : (qs : List (Question Address)) (w : Outside) → Asked qs w w
  unfolding after_questions
  Asked-nothing qs w = ([], qs, refl, refl)

  pub Asked-more :
      (q : Question Address) (qs : List (Question Address)) (w w' : Outside)
      → Asked qs (after_call w q.contract q.fn q.args) w'
      → Asked (q ∷ qs) w w'
  unfolding after_questions
  Asked-more q qs w w' (first, rest, split, led) = (q ∷ first, rest, ap (λ x. q ∷ x) split, led)
