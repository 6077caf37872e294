-- ===== src/Compliance/Evaluator/Gates.antt =====
-- Each gate of crates/compliance/src/evaluator.rs decides as its checks say.
-- outside of the contract.
use safeguard_hooks.Prelude.{
  ◌≡◌, refl, subst, Bool, true, false, ◌&&◌, Option, none, some, List, if◌then◌else◌,
}
use safeguard_hooks.HookCore.Party.{PartyRole, spender, holds_funds, is_spender}
use safeguard_hooks.HookCore.Reason.{policy_unavailable, sac_authorization_failed}
use safeguard_hooks.HookCore.Decision.{ComplianceDecision, allow, deny}
use safeguard_hooks.Host.{Host, Answer, value, malformed, failed}
use safeguard_hooks.Host.Run.{M, pure, ◌>>=◌}
use safeguard_hooks.Storage.Registry.{Registry, Does, Does-pure, Does-bind}
use safeguard_hooks.Storage.Entries.Reads.{is_frozen-Does}
use safeguard_hooks.PolicyClient
use safeguard_hooks.Compliance.Sac
use safeguard_hooks.Compliance.Evaluator.{
  freeze_gate, policy_verdict, policy_gate, sac_verdict, sac_gate, unless_denied,
}
use safeguard_hooks.Compliance.Evaluator.Checks.{
  Check, denial_of, is_holder, ask_policy, ask_sac, heard, judge, then_judge,
}

module _ ⦃H : Host⦄ where
  open H use {Address, Outside}

  -- The code decides as `p` says, and leaves the registry alone.
  abbrev pub Judges :
      M ComplianceDecision → Registry Address Outside → ComplianceDecision × Outside → Type 0
  Judges m r p = Does m r p.0 (record r { outside = p.1 })

  pub freeze_gate-Does :
      (r : Registry Address Outside) (token : Address) (role : PartyRole) (who : Address)
      → Does (freeze_gate token role who) r (is_holder role && r.frozen token who) r
  unfolding freeze_gate
  freeze_gate-Does r token spender who = Does-pure false r
  freeze_gate-Does r token _ who = is_frozen-Does r token who

  heard-policy :
      (role : PartyRole) (a : Answer) (w : Outside)
      → ◌≡◌ {A = ComplianceDecision × Outside}
          (policy_verdict role (PolicyClient.classify a), w)
          (heard a (denial_of role) policy_unavailable w (allow, w))
  unfolding is_spender
  heard-policy spender (value true) w = refl
  heard-policy spender (value false) w = refl
  heard-policy spender malformed w = refl
  heard-policy spender failed w = refl
  heard-policy _ (value true) w = refl
  heard-policy _ (value false) w = refl
  heard-policy _ malformed w = refl
  heard-policy _ failed w = refl

  pub policy_gate-Judges :
      (r : Registry Address Outside) (token : Address) (role : PartyRole) (who : Address)
      (policy : Option Address)
      → Judges
          (policy_gate token role who policy)
          r
          (judge (ask_policy token role who policy) r.outside)
  unfolding policy_gate judge
  policy_gate-Judges r token role who none = Does-pure allow r
  policy_gate-Judges r token role who (some policy) =
      subst (Judges (policy_gate token role who (some policy)) r) (heard-policy role _ _)
        (Does-bind _ (PolicyClient.is_authorized-Does r policy who token) (Does-pure _ _))

  heard-sac :
      (a : Answer) (w : Outside)
      → ◌≡◌ {A = ComplianceDecision × Outside}
          (sac_verdict (Sac.classify a), w)
          (heard a sac_authorization_failed sac_authorization_failed w (allow, w))
  heard-sac (value true) w = refl
  heard-sac (value false) w = refl
  heard-sac malformed w = refl
  heard-sac failed w = refl

  pub sac_gate-Judges :
      (r : Registry Address Outside) (who : Address) (sac : Option Address)
      → Judges (sac_gate who sac) r (judge (ask_sac true who sac) r.outside)
  unfolding sac_gate judge
  sac_gate-Judges r who none = Does-pure allow r
  sac_gate-Judges r who (some sac) =
      subst (Judges (sac_gate who (some sac)) r) (heard-sac _ _)
        (Does-bind _ (Sac.is_authorized-Does r sac who) (Does-pure _ _))

  -- After an early return, or after what comes first has allowed.
  pub Judges-then :
      {m : M ComplianceDecision} (n : M ComplianceDecision) (r : Registry Address Outside)
      (cs : List (Check Address)) (p : ComplianceDecision × Outside)
      → Judges m r p
      → ((w : Outside) → Judges n (record r { outside = w }) (judge cs w))
      → Judges (m >>= λ d. unless_denied d n) r (then_judge p cs)
  Judges-then n r cs (allow, w) dm dn = Does-bind _ dm (dn w)
  Judges-then n r cs (deny why, w) dm dn = Does-bind _ dm (Does-pure _ _)

  pub sac_part-Judges :
      (r : Registry Address Outside) (b : Bool) (who : Address) (sac : Option Address)
      → Judges (if b then sac_gate who sac else pure allow) r (judge (ask_sac b who sac) r.outside)
  unfolding judge
  sac_part-Judges r true who sac = sac_gate-Judges r who sac
  sac_part-Judges r false who sac = Does-pure allow r

  pub holds_funds-is_holder : (role : PartyRole) → holds_funds role ≡ is_holder role
  unfolding holds_funds
  holds_funds-is_holder spender = refl
  holds_funds-is_holder _ = refl
