-- ===== src/Compliance/Evaluator/Checks.antt =====
-- What an evaluation promises: a flat list of checks, tried in order up to the first that fails. No
-- loop over parties, no branches on roles inside it and no lifetimes.
use safeguard_hooks.Prelude.{
  String, ◌≡◌, refl, Bool, true, false, ◌&&◌, Option, none, some, List, [], ◌∷◌, ◌++◌, length, zip,
  flat_map, ◌==◌, if◌then◌else◌,
}
use safeguard_hooks.HookCore.Party.{PartyRole, account, from, to, spender}
use safeguard_hooks.HookCore.Operation.{Operation, parties}
use safeguard_hooks.HookCore.Reason.{
  RejectionReason, account_frozen, policy_denied, policy_unavailable, spender_not_authorized,
  sac_authorization_failed, invalid_configuration, unbound_token,
}
use safeguard_hooks.HookCore.Decision.{ComplianceDecision, allow, deny}
use safeguard_hooks.Host.{Host, Answer, value, malformed, failed}
use safeguard_hooks.Storage.Keys.{ComplianceConfig, TokenBinding}
use safeguard_hooks.Storage.Registry.{Registry}
use safeguard_hooks.PolicyClient.{policy_fn}
use safeguard_hooks.Compliance.Sac.{sac_authorized_fn}

-- A check on the contract's own state, and one that asks another contract.
pub data Check (A : Type 0) : Type 0 where
  refuse_if : Bool → (why : RejectionReason) → Check A
  ask :
      (contract : A) (fn : String) (args : List A) (denied unavailable : RejectionReason) → Check A

-- The reason of a policy denial, and whether the role is held to freeze and SAC checks.
abbrev pub denial_of : PartyRole → RejectionReason
denial_of spender = spender_not_authorized
denial_of account = policy_denied
denial_of from = policy_denied
denial_of to = policy_denied

abbrev pub is_holder : PartyRole → Bool
is_holder spender = false
is_holder account = true
is_holder from = true
is_holder to = true

module _ {A : Type 0} where
  abbrev pub ask_policy : (token : A) → PartyRole → (who : A) → Option A → List (Check A)
  ask_policy token role who none = []
  ask_policy token role who (some policy) =
      ask policy policy_fn (who ∷ token ∷ []) (denial_of role) policy_unavailable ∷ []

  abbrev pub ask_sac : Bool → (who : A) → Option A → List (Check A)
  ask_sac true who (some sac) =
      ask sac sac_authorized_fn (who ∷ []) sac_authorization_failed sac_authorization_failed ∷ []
  ask_sac true who none = []
  ask_sac false who sac = []

  -- Freeze, then policy, then SAC.
  abbrev pub checks_of :
      (frozen : A → A → Bool) (token : A) (config : ComplianceConfig A) (sac : Option A)
      → PartyRole × A
      → List (Check A)
  checks_of frozen token config sac (role, who) =
      refuse_if (is_holder role && frozen token who) account_frozen
        ∷ ask_policy token role who config.policy
      ++ ask_sac (is_holder role && config.sac_passthrough) who sac

module _ ⦃H : Host⦄ where
  open H use {Address, Outside, answers, after_call}

  -- The answer to one question settles the decision, or leaves it to the `rest`.
  abbrev pub heard :
      Answer
      → RejectionReason
      → RejectionReason
      → Outside
      → ComplianceDecision × Outside
      → ComplianceDecision × Outside
  heard (value true) denied unavailable w rest = rest
  heard (value false) denied unavailable w rest = (deny denied, w)
  heard malformed denied unavailable w rest = (deny unavailable, w)
  heard failed denied unavailable w rest = (deny unavailable, w)

  -- The first failing check decides; nobody is asked after it.
  unfoldable pub judge : List (Check Address) → Outside → ComplianceDecision × Outside
  judge [] w = (allow, w)
  judge (refuse_if b why ∷ cs) w = let rest = judge cs w in if b then (deny why, w) else rest
  judge (ask c fn args denied unavailable ∷ cs) w =
      let w' = after_call w c fn args in
      let rest = judge cs w' in heard (answers w c fn args) denied unavailable w' rest

  abbrev pub then_judge :
      ComplianceDecision × Outside → List (Check Address) → ComplianceDecision × Outside
  then_judge (allow, w) cs = judge cs w
  then_judge (deny why, w) cs = (deny why, w)

  pub judge-append :
      (bs cs : List (Check Address)) (w : Outside) → judge (bs ++ cs) w ≡ then_judge (judge bs w) cs
  unfolding judge
  judge-append [] cs w = refl
  judge-append (refuse_if true why ∷ bs) cs w = refl
  judge-append (refuse_if false why ∷ bs) cs w = judge-append bs cs w
  judge-append (ask c fn args denied unavailable ∷ bs) cs w =
      go (answers w c fn args) (judge bs (after_call w c fn args))
        (judge-append bs cs (after_call w c fn args))
    where
      go :
          (a : Answer) (q : ComplianceDecision × Outside) {p : ComplianceDecision × Outside}
          → p ≡ then_judge q cs
          → heard a denied unavailable (after_call w c fn args) p
            ≡ then_judge (heard a denied unavailable (after_call w c fn args) q) cs
      go (value true) q h = h
      go (value false) q h = refl
      go malformed q h = refl
      go failed q h = refl

  -- The whole evaluation, from the registry.
  abbrev pub judge_bound :
      Registry Address Outside
      → (token : Address) → Operation
      → List Address
      → ComplianceConfig Address
      → Option (TokenBinding Address)
      → ComplianceDecision × Outside
  judge_bound r token op accounts config none = (deny unbound_token, r.outside)
  judge_bound r token op accounts config (some b) =
      if length (parties op) == length accounts
      then judge (flat_map (checks_of r.frozen token config b.sac) (zip (parties op) accounts))
          r.outside
      else (deny invalid_configuration, r.outside)

  abbrev pub judge_configured :
      Registry Address Outside
      → (token : Address) → Operation
      → List Address
      → Option (ComplianceConfig Address)
      → ComplianceDecision × Outside
  judge_configured r token op accounts none = (deny invalid_configuration, r.outside)
  judge_configured r token op accounts (some config) =
      judge_bound r token op accounts config (r.binding token)

  unfoldable pub verdict :
      Registry Address Outside
      → (token : Address) → Operation
      → List Address
      → ComplianceDecision × Outside
  verdict r token op accounts = judge_configured r token op accounts r.config
