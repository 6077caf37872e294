-- ===== src/SamplePolicy/Launch.antt =====
-- The hooks of contracts/compliance-hooks/src/lib.rs on a deployment that has just been set up with the
-- sample policy.
use safeguard_hooks.Prelude.{
  ◌≡◌, ◌≢◌, ◌↔◌, refl, ap, ◌∙◌, Bool, true, false, Option, some, List, [], ◌∷◌, zip, length, ◌==◌,
  All, ok,
}
use safeguard_hooks.HookCore.Operation.{Operation, parties}
use safeguard_hooks.HookCore.Decision.{ComplianceDecision, allow}
use safeguard_hooks.Host.{Host}
use safeguard_hooks.Host.Run.{M, done}
use safeguard_hooks.Storage.Keys.{TokenBinding}
use safeguard_hooks.Storage.Registry.{Shows}
use safeguard_hooks.Compliance.Evaluator.{evaluate}
use safeguard_hooks.Compliance.Evaluator.Checks.{verdict}
use safeguard_hooks.Compliance.Evaluator.Refines.{evaluate-Judges}
use safeguard_hooks.ComplianceHooks.{Reply, enforce}
use safeguard_hooks.ComplianceHooks.Invoke.{invoke}
use safeguard_hooks.ComplianceHooks.Transition.{
  State, returns, Call, before_register, before_withdraw, before_merge, before_deposit,
  before_transfer, before_transfer_from, to_enforce, transition,
}
use safeguard_hooks.ComplianceHooks.Refines.{Meets, returning}
use safeguard_hooks.ComplianceHooks.Refines.Calls.{invoke-Meets}
use safeguard_hooks.ComplianceHooks.Effects.Posts.{enforce_ok}
use safeguard_hooks.ComplianceHooks.Setup.{Binding, IsSetUp, last_binding}
use safeguard_hooks.SamplePolicy.{Stored, constructor}
use safeguard_hooks.SamplePolicy.Gate.{Runs, MayPass, sample_allow_iff}

module _ ⦃H : Host⦄ where
  open H use {Address, Address-discrete, Env, Outside}

  -- What a hook asks: about an operation of a token, by these accounts.
  pub data Asks : Call Address → Operation → Address → List Address → Type 0 where
    to_register : {t a : Address} → Asks (before_register t a) Operation.register t (a ∷ [])
    to_withdraw : {t a : Address} → Asks (before_withdraw t a) Operation.withdraw t (a ∷ a ∷ [])
    to_merge : {t a : Address} → Asks (before_merge t a) Operation.merge t (a ∷ [])
    to_deposit : {t a b : Address} → Asks (before_deposit t a b) Operation.deposit t (a ∷ b ∷ [])
    to_transfer : {t a b : Address} → Asks (before_transfer t a b) Operation.transfer t (a ∷ b ∷ [])
    to_transfer_from :
        {t d a b : Address}
        → Asks (before_transfer_from t d a b) Operation.transfer_from t (d ∷ a ∷ b ∷ [])

  returns_iff :
      (m : M Reply) (r s : State) (d : ComplianceDecision) (e : Env)
      → Shows e r
      → Meets m r (returns (enforce d) s)
      → ((e' : Env) × (m e ≡ done e' (ok tt))) ↔ (d ≡ allow)
  unfolding enforce
  returns_iff m r s d e shown (returning does) =
      let (e1, ran, _) = does.ends e shown in
      (λ (e', ran'). enforce_ok d cc, λ h. (e1, ran ∙ ap (λ x. done e1 (enforce x)) h))

  allows_iff :
      (r : State) (token : Address) (op : Operation) (accounts : List Address) (e : Env)
      → Shows e r
      → ((verdict r token op accounts).0 ≡ allow)
        ↔ ((e' : Env) × (evaluate token op accounts e ≡ done e' allow))
  allows_iff r token op accounts e shown =
      let (e1, ran, _) = (evaluate-Judges r token op accounts).ends e shown in
      (λ h. (e1, ran ∙ ap (done e1) h), λ (e', ran'). cc)

  hook_iff :
      {c : Call Address} {op : Operation} {token : Address} {accounts : List Address} (r : State)
      (e : Env)
      → Asks c op token accounts
      → Shows e r
      → ((e' : Env) × (invoke c e ≡ done e' (ok tt))) ↔ ((verdict r token op accounts).0 ≡ allow)
  unfolding transition to_enforce
  hook_iff r e to_register shown = returns_iff _ r _ _ e shown (invoke-Meets r _)
  hook_iff r e to_withdraw shown = returns_iff _ r _ _ e shown (invoke-Meets r _)
  hook_iff r e to_merge shown = returns_iff _ r _ _ e shown (invoke-Meets r _)
  hook_iff r e to_deposit shown = returns_iff _ r _ _ e shown (invoke-Meets r _)
  hook_iff r e to_transfer shown = returns_iff _ r _ _ e shown (invoke-Meets r _)
  hook_iff r e to_transfer_from shown = returns_iff _ r _ _ e shown (invoke-Meets r _)

  right_arity :
      {c : Call Address} {op : Operation} {token : Address} {accounts : List Address}
      → Asks c op token accounts
      → (length (parties op) == length accounts) ≡ true
  unfolding parties
  right_arity to_register = refl
  right_arity to_withdraw = refl
  right_arity to_merge = refl
  right_arity to_deposit = refl
  right_arity to_transfer = refl
  right_arity to_transfer_from = refl

  module _ (frozen : Address → Address → Bool) (none_frozen : (t x : Address) → frozen t x ≡ false)
      (blocked : Option Address) where
    one :
        (holds : Bool) (token who : Address)
        → ((holds ≡ true → frozen token who ≡ false) × (blocked ≢ some who)) ↔ (blocked ≢ some who)
    one holds token who = (λ h. h.1, λ h. (λ _. none_frozen token who, h))

    with_rest : {P Q R S : Type 0} → P ↔ Q → R ↔ S → (P × R) ↔ (Q × S)
    with_rest (to, from) (to', from') = (λ h. (to h.0, to' h.1), λ h. (from h.0, from' h.1))

    no_more : Unit {0} ↔ Unit {0}
    no_more = (λ h. h, λ h. h)

    -- Where no account is frozen, the parties may pass that are not blocked.
    unblocked_iff :
        {c : Call Address} {op : Operation} {token : Address} {accounts : List Address}
        → Asks c op token accounts
        → All (MayPass frozen token blocked) (zip (parties op) accounts)
          ↔ All (λ who. blocked ≢ some who) accounts
    unfolding parties zip
    unblocked_iff to_register = with_rest (one _ _ _) no_more
    unblocked_iff to_withdraw = with_rest (one _ _ _) (with_rest (one _ _ _) no_more)
    unblocked_iff to_merge = with_rest (one _ _ _) no_more
    unblocked_iff to_deposit = with_rest (one _ _ _) (with_rest (one _ _ _) no_more)
    unblocked_iff to_transfer = with_rest (one _ _ _) (with_rest (one _ _ _) no_more)
    unblocked_iff to_transfer_from =
        with_rest (one _ _ _) (with_rest (one _ _ _) (with_rest (one _ _ _) no_more))

  -- In the state that a bring-up leaves, with SAC passthrough off and, as the policy, a contract that
  -- runs the sample policy as it was deployed, on stored data that only its constructor writes: every
  -- hook of a token that was bound returns `ok` exactly when none of the accounts it names, the spender
  -- included, is the one that the policy was deployed to block.
  pub launch_iff :
      (r : State) (a policy : Address) (blocked : Option Address)
      (stored : Stored {A = Address} Address-discrete) (bs : List Binding)
      (b : TokenBinding Address) (c : Call Address) (op : Operation) (token : Address)
      (accounts : List Address) (e : Env)
      → IsSetUp a (record { policy = some policy; sac_passthrough = false }) bs r
      → last_binding bs token ≡ some b
      → Shows e r
      → Runs policy (constructor Address-discrete blocked stored) r.outside
      → Asks c op token accounts
      → ((e' : Env) × (invoke c e ≡ done e' (ok tt))) ↔ All (λ who. blocked ≢ some who) accounts
  launch_iff r a policy blocked stored bs b c op token accounts e ready bound shown runs asks =
      let hook = hook_iff r e asks shown in
      let judged = allows_iff r token op accounts e shown in
      let gate =
        sample_allow_iff r token op accounts policy blocked stored b e shown runs ready.configured
          (ready.bound token ∙ bound) (right_arity asks) in
      let free = unblocked_iff r.frozen ready.none_frozen blocked asks in
      (λ h. free.0 (gate.0 (judged.0 (hook.0 h))), λ h. hook.1 (judged.1 (gate.1 (free.1 h))))
