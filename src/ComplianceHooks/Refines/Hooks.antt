-- ===== src/ComplianceHooks/Refines/Hooks.antt =====
-- The hooks and the public reads of contracts/compliance-hooks/src/lib.rs against the state machine.

use safeguard_hooks.Prelude.{List, [], ◌∷◌}
use safeguard_hooks.HookCore.Operation.{Operation}
use safeguard_hooks.Host.{Host}
use safeguard_hooks.Host.Run.{pure, ◌>>=◌}
use safeguard_hooks.Storage.Registry.{Does-pure, Does-bind}
use safeguard_hooks.Compliance.Evaluator.{
  evaluate, evaluate_register, evaluate_deposit, evaluate_transfer, evaluate_withdraw,
  evaluate_merge, evaluate_transfer_from,
}
use safeguard_hooks.Compliance.Evaluator.Refines.{evaluate-Judges}
use safeguard_hooks.ComplianceHooks.{
  enforce, before_register, before_deposit, before_transfer, before_withdraw, before_merge,
  before_transfer_from,
}
use safeguard_hooks.ComplianceHooks.Transition.{State, to_enforce}
use safeguard_hooks.ComplianceHooks.Refines.{Meets, returning}

module _ ⦃H : Host⦄ (r : State) where
  open H use {Address}

  enforced :
      (op : Operation) (token : Address) (accounts : List Address)
      → Meets
          (evaluate token op accounts >>= λ decision. pure (enforce decision))
          r
          (to_enforce op token accounts r)
  unfolding to_enforce enforce
  enforced op token accounts =
      returning (Does-bind _ (evaluate-Judges r token op accounts) (Does-pure _ _))

  module _ (token : Address) where
    pub before_register-Meets :
        (account : Address)
        → Meets
            (before_register token account)
            r
            (to_enforce Operation.register token (account ∷ []) r)
    unfolding before_register evaluate_register
    before_register-Meets account = enforced _ _ _

    pub before_deposit-Meets :
        (source target : Address)
        → Meets
            (before_deposit token source target)
            r
            (to_enforce Operation.deposit token (source ∷ target ∷ []) r)
    unfolding before_deposit evaluate_deposit
    before_deposit-Meets source target = enforced _ _ _

    pub before_transfer-Meets :
        (source target : Address)
        → Meets
            (before_transfer token source target)
            r
            (to_enforce Operation.transfer token (source ∷ target ∷ []) r)
    unfolding before_transfer evaluate_transfer
    before_transfer-Meets source target = enforced _ _ _

    pub before_withdraw-Meets :
        (account : Address)
        → Meets
            (before_withdraw token account)
            r
            (to_enforce Operation.withdraw token (account ∷ account ∷ []) r)
    unfolding before_withdraw evaluate_withdraw
    before_withdraw-Meets account = enforced _ _ _

    pub before_merge-Meets :
        (account : Address)
        → Meets (before_merge token account) r (to_enforce Operation.merge token (account ∷ []) r)
    unfolding before_merge evaluate_merge
    before_merge-Meets account = enforced _ _ _

    pub before_transfer_from-Meets :
        (delegate source target : Address)
        → Meets
            (before_transfer_from token delegate source target)
            r
            (to_enforce Operation.transfer_from token (delegate ∷ source ∷ target ∷ []) r)
    unfolding before_transfer_from evaluate_transfer_from
    before_transfer_from-Meets delegate source target = enforced _ _ _
