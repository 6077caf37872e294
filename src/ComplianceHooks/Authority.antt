-- ===== src/ComplianceHooks/Authority.antt =====
-- contracts/compliance-hooks/src/lib.rs: who may change what.
use safeguard_hooks.Prelude.{
  ◌≡◌, ◌⊎◌, inl, inr, refl, Bool, true, false, Option, some, is_some, ok, same, same_sound,
  Bool-cases,
}
use safeguard_hooks.Host.{Host}
use safeguard_hooks.Host.Run.{done}
use safeguard_hooks.Storage.Registry.{Shows, assign_pair}
use safeguard_hooks.ComplianceHooks.{Reply}
use safeguard_hooks.ComplianceHooks.Invoke.{invoke}
use safeguard_hooks.ComplianceHooks.Transition.{State, Call, freeze, unfreeze}
use safeguard_hooks.ComplianceHooks.Effects.{
  Signed, Effect, keeps, initializes, configures, binds, unbinds, freezes, unfreezes,
}
use safeguard_hooks.ComplianceHooks.Effects.Outcomes.{invoke-Effect}

module _ ⦃H : Host⦄ where
  open H use {Address, Address-discrete, Env, Outside}

  -- The two agree on all that the contract stores and publishes.
  abbrev pub Agrees : State → State → Type 0
  Agrees r s = record s { outside = r.outside } ≡ r

  -- This is the stored admin, who signed the call.
  abbrev pub Approved : State → Option Address → Type 0
  Approved r admin = (a : Address) × (admin ≡ some a) × (H.signed r.outside a ≡ true)

  approved : {r : State} {w : Outside} → Signed r w → Approved r r.admin
  approved x = (x.who, x.is_admin, x.stood)

  change-Effect :
      (r s : State) (c : Call Address) (reply : Reply)
      → Effect r c reply s
      → Agrees r s ⊎ ((reply ≡ ok tt) × Approved r s.admin)
  change-Effect r _ c reply (keeps w) = inl refl
  change-Effect r _ c reply (initializes missing signed) = inr (refl, (_, refl, signed))
  change-Effect r _ c reply (configures x changed small) = inr (refl, approved x)
  change-Effect r _ c reply (binds x changed) = inr (refl, approved x)
  change-Effect r _ c reply (unbinds x bound) = inr (refl, approved x)
  change-Effect r _ c reply (freezes x configured bound free) = inr (refl, approved x)
  change-Effect r _ c reply (unfreezes x configured bound frozen) = inr (refl, approved x)

  module _ (r : State) (c : Call Address) (e e' : Env) (reply : Reply) where
    -- A call either leaves all that the contract stores and publishes as it was, or it returns
    -- `ok` and the admin that is stored afterwards has signed it. An error reply so never comes
    -- with a change.
    pub change_needs_admin :
        Shows e r
        → invoke c e ≡ done e' reply
        → (s : State) × Shows e' s × (Agrees r s ⊎ ((reply ≡ ok tt) × Approved r s.admin))
    change_needs_admin shown ran =
        let (s, shown', effect) = invoke-Effect r c e e' reply shown ran in
        (s, shown', change-Effect r s c reply effect)

  admin-Effect :
      (r s : State) (c : Call Address) (reply : Reply) (a : Address)
      → r.admin ≡ some a
      → Effect r c reply s
      → s.admin ≡ some a
  admin-Effect r _ c reply a h (initializes missing signed) = cc
  admin-Effect r _ c reply a h (keeps w) = h
  admin-Effect r _ c reply a h (configures x changed small) = h
  admin-Effect r _ c reply a h (binds x changed) = h
  admin-Effect r _ c reply a h (unbinds x bound) = h
  admin-Effect r _ c reply a h (freezes x configured bound free) = h
  admin-Effect r _ c reply a h (unfreezes x configured bound frozen) = h

  -- A call that returns, from an environment in which an admin is stored, leaves that admin stored.
  pub admin_stays :
      (r : State) (c : Call Address) (e e' : Env) (reply : Reply) (a : Address)
      → Shows e r
      → r.admin ≡ some a
      → invoke c e ≡ done e' reply
      → (s : State) × Shows e' s × (s.admin ≡ some a)
  admin_stays r c e e' reply a shown h ran =
      let (s, shown', effect) = invoke-Effect r c e e' reply shown ran in
      (s, shown', admin-Effect r s c reply a h effect)

  assigned_pair :
      (f : Address → Address → Bool) (t a u b : Address) (v : Bool)
      → (assign_pair Address-discrete f t a v u b ≡ f u b) ⊎ ((t ≡ u) × (a ≡ b))
  assigned_pair f t a u b v = elim (Bool-cases (same Address-discrete t u)) [
    | inr other ↦ inl (rw other refl)
    | inl same_token ↦ elim (Bool-cases (same Address-discrete a b)) [
      | inr other ↦ inl (rw (same_token, other) refl)
      | inl same_account ↦
          inr (
            same_sound Address-discrete t u same_token,
            same_sound Address-discrete a b same_account,
          )
    ]
  ]

  -- A flag is as it was, or the call names just that token and account, in scope.
  abbrev pub FlagMoves : State → State → Call Address → (token account : Address) → Type 0
  FlagMoves r s c token account =
      (s.frozen token account ≡ r.frozen token account)
      ⊎ ((is_some r.config ≡ true)
          × (is_some (r.binding token) ≡ true)
          × (((c ≡ freeze token account) × (r.frozen token account ≡ false))
              ⊎ ((c ≡ unfreeze token account) × (r.frozen token account ≡ true))))

  flag-Effect :
      (r s : State) (c : Call Address) (reply : Reply) (token account : Address)
      → Effect r c reply s
      → FlagMoves r s c token account
  flag-Effect r _ c reply u b (keeps w) = inl refl
  flag-Effect r _ c reply u b (initializes missing signed) = inl refl
  flag-Effect r _ c reply u b (configures x changed small) = inl refl
  flag-Effect r _ c reply u b (binds x changed) = inl refl
  flag-Effect r _ c reply u b (unbinds x bound) = inl refl
  flag-Effect r _ _ reply u b (freezes {token} {account} x configured bound free) =
      elim (assigned_pair r.frozen token account u b true) [
        | inl unmoved ↦ inl unmoved
        | inr (p, q) ↦ inr (configured, rw (← p) bound, inl (rw (p, q) refl, rw (← p, ← q) free))
      ]
  flag-Effect r _ _ reply u b (unfreezes {token} {account} x configured bound frozen) =
      elim (assigned_pair r.frozen token account u b false) [
        | inl unmoved ↦ inl unmoved
        | inr (p, q) ↦ inr (configured, rw (← p) bound, inr (rw (p, q) refl, rw (← p, ← q) frozen))
      ]

  -- The freeze flag of an account for a token is changed by `freeze` and `unfreeze` of that very
  -- pair only, and only for a bound token of a configured contract.
  pub freeze_isolated :
      (r : State) (c : Call Address) (e e' : Env) (reply : Reply) (token account : Address)
      → Shows e r
      → invoke c e ≡ done e' reply
      → (s : State) × Shows e' s × FlagMoves r s c token account
  freeze_isolated r c e e' reply token account shown ran =
      let (s, shown', effect) = invoke-Effect r c e e' reply shown ran in
      (s, shown', flag-Effect r s c reply token account effect)
