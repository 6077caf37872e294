-- ===== src/ComplianceHooks/Refines.antt =====
-- Every entry point of the contract does what the state machine says, from any environment.
pub mod Admin
pub mod Hooks
pub mod Calls
use safeguard_hooks.Prelude.{
  ◌≡◌, refl, Bool, true, false, not, Option, none, some, is_some, ok, err, map_err, if◌then◌else◌,
}
use safeguard_hooks.Host.{Host}
use safeguard_hooks.Host.Run.{M, pure, or_return, ◌>>=◌}
use safeguard_hooks.Storage.Registry.{
  Registry, Does, Does-pure, Does-bind, Does-value, Panics, Panics-bind, Panics-later,
}
use safeguard_hooks.Storage.Entries.{is_token_bound}
use safeguard_hooks.Storage.Entries.Reads.{compliance_config-Does, is_token_bound-Does}
use safeguard_hooks.Authorization.Gates.{
  require_admin_uninitialized, require_admin_signed, require_admin_unsigned,
}
use safeguard_hooks.ComplianceHooks.{
  Reply, from_reason, invalid_configuration, unbound_token, admin_gate, scope_gate,
}
use safeguard_hooks.ComplianceHooks.Transition.{
  State, Outcome, returns, aborts, for_admin, if_signed, as_admin, in_scope,
}

module _ ⦃H : Host⦄ where
  open H use {Address, Outside}

  -- The code ends as the outcome says.
  pub data Meets (m : M Reply) (r : State) : Outcome → Type 0 where
    returning : {reply : Reply} {r' : State} → Does m r reply r' → Meets m r (returns reply r')
    aborting : Panics m r → Meets m r aborts

  pub Meets-pure : (reply : Reply) (r : State) → Meets (pure reply) r (returns reply r)
  Meets-pure reply r = returning (Does-pure reply r)

  pub Meets-bind :
      {A : Type 0} {m : M A} (f : A → M Reply) {r s : State} {a : A} {o : Outcome}
      → Does m r a s
      → Meets (f a) s o
      → Meets (m >>= f) r o
  Meets-bind f dm (returning df) = returning (Does-bind f dm df)
  Meets-bind f dm (aborting pf) = aborting (Panics-later f dm pf)

  pub Meets-if :
      (b : Bool) (m n : M Reply) (r : State) (o p : Outcome)
      → (b ≡ true → Meets m r o)
      → (b ≡ false → Meets n r p)
      → Meets (if b then m else n) r (if b then o else p)
  Meets-if true m n r o p dm dn = dm refl
  Meets-if false m n r o p dm dn = dn refl

  pub Meets-if_not :
      (b : Bool) (m n : M Reply) (r : State) (o p : Outcome)
      → (b ≡ false → Meets m r p)
      → (b ≡ true → Meets n r o)
      → Meets (if not b then m else n) r (if b then o else p)
  Meets-if_not true m n r o p dm dn = dn refl
  Meets-if_not false m n r o p dm dn = dm refl

  module _ (k : M Reply) (r : State) (go : State → Outcome)
      (rest : (q : State) → Meets k q (go q)) where
    signed_part :
        (a : Address) (b : Bool)
        → r.admin ≡ some a
        → H.signed r.outside a ≡ b
        → Meets
            (admin_gate >>= λ gate. or_return gate (λ _. k))
            r
            (if_signed b (record r { outside = H.after_auth r.outside a }) go)
    unfolding admin_gate
    signed_part a true e signed =
        Meets-bind _ (Does-bind _ (require_admin_signed r a e signed) (Does-pure _ _)) (rest _)
    signed_part a false e unsigned =
        aborting (Panics-bind _ (Panics-bind _ (require_admin_unsigned r a e unsigned)))

    admin_part :
        (o : Option Address)
        → r.admin ≡ o
        → Meets (admin_gate >>= λ gate. or_return gate (λ _. k)) r (for_admin o r go)
    unfolding admin_gate from_reason
    admin_part none e =
        Meets-bind _ (Does-bind _ (require_admin_uninitialized r e) (Does-pure _ _))
          (Meets-pure _ _)
    admin_part (some a) e = signed_part a _ e refl

    -- What stands behind the admin gate runs only for a signed admin.
    pub Meets-as_admin : Meets (admin_gate >>= λ gate. or_return gate (λ _. k)) r (as_admin r go)
    Meets-as_admin = admin_part r.admin refl

  abbrev scope_reply : Bool → Bool → Reply
  scope_reply true true = ok tt
  scope_reply true false = err unbound_token
  scope_reply false bound = err invalid_configuration

  scope_gate-Does :
      (r : State) (token : Address)
      → Does (scope_gate token) r (scope_reply (is_some r.config) (is_some (r.binding token))) r
  unfolding scope_gate
  scope_gate-Does r token = Does-bind _ (compliance_config-Does r) (by_config (is_some r.config))
    where
      by_bound :
          (b : Bool)
          → Does (if not b then pure (err unbound_token) else pure (ok tt)) r (scope_reply true b) r
      by_bound true = Does-pure _ r
      by_bound false = Does-pure _ r

      by_config :
          (b : Bool)
          → Does
              (if not b
                then pure (err invalid_configuration)
                else (is_token_bound token >>= λ bound.
                    if not bound then pure (err unbound_token) else pure (ok tt)))
              r
              (scope_reply b (is_some (r.binding token)))
              r
      by_config true = Does-bind _ (is_token_bound-Does r token) (by_bound _)
      by_config false = Does-pure _ r

  module _ (token : Address) (k : M Reply) (r : State) (go : State → Outcome)
      (rest : Meets k r (go r)) where
    scope_part :
        (configured bound : Bool)
        → Does (scope_gate token) r (scope_reply configured bound) r
        → Meets (scope_gate token >>= λ scope. or_return scope (λ _. k)) r (
            if configured
            then (if bound then go r else returns (err unbound_token) r)
            else returns (err invalid_configuration) r)
    scope_part true true d = Meets-bind _ d rest
    scope_part true false d = Meets-bind _ d (Meets-pure _ r)
    scope_part false bound d = Meets-bind _ d (Meets-pure _ r)

    -- What stands behind the scope gate runs only for a bound token of a configured contract.
    pub Meets-in_scope :
        Meets (scope_gate token >>= λ scope. or_return scope (λ _. k)) r (in_scope token r go)
    Meets-in_scope = scope_part _ _ (scope_gate-Does r token)
