-- ===== src/ComplianceHooks/Frozen.antt =====
-- Frozen until unfrozen: what a freeze means for all that follows it.
use safeguard_hooks.Prelude.{
  ◌≡◌, ◌≢◌, ◌⊎◌, inl, inr, refl, ap, ◌∙◌, true, false, List, zip, All, All-map, ok,
}
use safeguard_hooks.HookCore.Party.{PartyRole}
use safeguard_hooks.HookCore.Operation.{Operation, parties}
use safeguard_hooks.HookCore.Decision.{allow}
use safeguard_hooks.Host.{Host, View}
use safeguard_hooks.Host.Run.{done}
use safeguard_hooks.Storage.Registry.{Shows}
use safeguard_hooks.Compliance.Evaluator.Checks.{verdict, is_holder}
use safeguard_hooks.Compliance.Evaluator.Allows.{verdict_clears}
use safeguard_hooks.ComplianceHooks.Invoke.{invoke}
use safeguard_hooks.ComplianceHooks.Transition.{
  State, Call, freeze, unfreeze, initialize, set_config, bind_token, unbind_token, before_register,
  before_withdraw, before_merge, before_deposit, before_transfer, before_transfer_from,
}
use safeguard_hooks.ComplianceHooks.Authority.{freeze_isolated}
use safeguard_hooks.ComplianceHooks.Effects.Posts.{Post, ok_means}

module _ ⦃H : Host⦄ where
  open H use {Address, Env, Outside}

  module _ (token account : Address) where
    -- The environments that come after `e` with no `unfreeze` of the account on the token: a call
    -- that returns `ok` is committed, and whatever else happens keeps what is stored.
    pub data Unthawed (e : Env) : Env → Type 0 where
      still : Unthawed e e
      called :
          (f g : Env) (c : Call Address)
          → Unthawed e f
          → c ≢ unfreeze token account
          → invoke c f ≡ done g (ok tt)
          → Unthawed e g
      meanwhile :
          (f g : Env) (w : Outside)
          → Unthawed e f
          → H.view g ≡ record (H.view f) { outside = w }
          → Unthawed e g

    -- A hook that names the account as a holder: of the funds that move, or of the account itself.
    abbrev pub Names : Call Address → Type 0
    Names (before_register t a) = (t ≡ token) × (a ≡ account)
    Names (before_withdraw t a) = (t ≡ token) × (a ≡ account)
    Names (before_merge t a) = (t ≡ token) × (a ≡ account)
    Names (before_deposit t a b) = (t ≡ token) × ((a ≡ account) ⊎ (b ≡ account))
    Names (before_transfer t a b) = (t ≡ token) × ((a ≡ account) ⊎ (b ≡ account))
    Names (before_transfer_from t spender a b) = (t ≡ token) × ((a ≡ account) ⊎ (b ≡ account))
    Names (initialize a) = ⊥
    Names (set_config policy sac_passthrough) = ⊥
    Names (bind_token t sac) = ⊥
    Names (unbind_token t) = ⊥
    Names (freeze t a) = ⊥
    Names (unfreeze t a) = ⊥

    abbrev FrozenAt : Env → Type 0
    FrozenAt e = (r : State) × Shows e r × (r.frozen token account ≡ true)

    stays_frozen : (e f : Env) → FrozenAt e → Unthawed e f → FrozenAt f
    stays_frozen e _ h still = h
    stays_frozen e g h (called f _ c before other ran) =
        let (r, shown, frozen) = stays_frozen e f h before in
        let (s, shown', moves) = freeze_isolated r c f g (ok tt) token account shown ran in
        (
          s,
          shown',
          elim moves [
            | inl unmoved ↦ unmoved ∙ frozen
            | inr moved ↦ elim moved.2 [ inl q ↦ cc (q.1, frozen) | inr q ↦ absurd (other q.0) ]
          ],
        )
    stays_frozen e g h (meanwhile f _ w before seen) =
        let (r, shown, frozen) = stays_frozen e f h before in
        (
          record r { outside = w },
          record {
            seen = seen ∙ ap (λ (v : View Address Outside). record v { outside = w }) shown.seen;
          },
          frozen,
        )

  module _ (s : State) (token account : Address) (frozen : s.frozen token account ≡ true) where
    abbrev Free : (t : Address) → PartyRole × Address → Type 0
    Free t (role, who) = is_holder role ≡ true → s.frozen t who ≡ false

    -- The flag of each holder of an allowed operation is down.
    unfrozen_holders :
        (t : Address) (op : Operation) (accounts : List Address)
        → (verdict s t op accounts).0 ≡ allow
        → All (Free t) (zip (parties op) accounts)
    unfrozen_holders t op accounts h =
        let (config, b, _, _, _, cleared) = verdict_clears s t op accounts h in
        All-map _ (Free t) (λ p x. x.not_frozen) _ cleared

    clash : (t who : Address) → t ≡ token → who ≡ account → s.frozen t who ≡ false → ⊥
    clash t who p q free = let up : s.frozen t who ≡ true = rw (p, q) frozen in cc (up, free)

    either :
        (t a b : Address)
        → t ≡ token
        → (a ≡ account) ⊎ (b ≡ account)
        → s.frozen t a ≡ false
        → s.frozen t b ≡ false
        → ⊥
    either t a b p (inl q) free_a free_b = clash t a p q free_a
    either t a b p (inr q) free_a free_b = clash t b p q free_b

    not_allowed : (c : Call Address) (s' : State) → Names token account c → Post s c s' → ⊥
    unfolding parties zip
    not_allowed (before_register t a) s' names post =
        clash t a names.0 names.1 ((unfrozen_holders t Operation.register _ post).0 refl)
    not_allowed (before_withdraw t a) s' names post =
        clash t a names.0 names.1 ((unfrozen_holders t Operation.withdraw _ post).0 refl)
    not_allowed (before_merge t a) s' names post =
        clash t a names.0 names.1 ((unfrozen_holders t Operation.merge _ post).0 refl)
    not_allowed (before_deposit t a b) s' names post =
        let free = unfrozen_holders t Operation.deposit _ post in
        either t a b names.0 names.1 (free.0 refl) (free.1.0 refl)
    not_allowed (before_transfer t a b) s' names post =
        let free = unfrozen_holders t Operation.transfer _ post in
        either t a b names.0 names.1 (free.0 refl) (free.1.0 refl)
    not_allowed (before_transfer_from t delegate a b) s' names post =
        let free = unfrozen_holders t Operation.transfer_from _ post in
        either t a b names.0 names.1 (free.1.0 refl) (free.1.1.0 refl)
    not_allowed _ s' names post = absurd names

  -- Once an account is frozen on a token, then whatever calls are committed and whatever else happens,
  -- as long as it is not unfrozen on that token it stays frozen, and no hook of the token that names
  -- it as a holder returns `ok`: no rotation of the policy, of the configuration or of the binding
  -- lifts a freeze.
  pub frozen_until_unfrozen :
      (r : State) (e f g : Env) (token account : Address) (c : Call Address)
      → Shows e r
      → r.frozen token account ≡ true
      → Unthawed token account e f
      → Names token account c
      → ((s : State) × Shows f s × (s.frozen token account ≡ true)) × (invoke c f ≢ done g (ok tt))
  frozen_until_unfrozen r e f g token account c shown frozen later names =
      let (s, shown', frozen') = stays_frozen token account e f (r, shown, frozen) later in
      (
        (s, shown', frozen'),
        λ ran.
            let (s', _, post) = ok_means s c f g shown' ran in
            not_allowed s token account frozen' c s' names post,
      )
