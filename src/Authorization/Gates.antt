-- ===== src/Authorization/Gates.antt =====
-- What the two gates of crates/authorization decide, from the registry alone.
use safeguard_hooks.Prelude.{◌≡◌, Bool, true, false, none, some, is_some, ok, err, if◌then◌else◌}
use safeguard_hooks.HookCore.Reason.{invalid_configuration, unbound_token}
use safeguard_hooks.Host.{Host}
use safeguard_hooks.Host.Run.{pure}
use safeguard_hooks.Host.Calls.{require_auth-Does, require_auth-Panics}
use safeguard_hooks.Storage.Registry.{
  Registry, Does, Does-pure, Does-bind, Does-value, Panics, Panics-bind, Panics-later,
}
use safeguard_hooks.Storage.Entries.Reads.{admin-Does, is_token_bound-Does}
use safeguard_hooks.Authorization.{is_initialized, require_admin, require_token_bound}

module _ ⦃H : Host⦄ (r : Registry H.Address H.Outside) where
  pub is_initialized-Does : Does is_initialized r (is_some r.admin) r
  unfolding is_initialized
  is_initialized-Does = Does-bind _ (admin-Does r) (Does-pure _ r)

  -- With no admin stored, nobody can change the state.
  pub require_admin_uninitialized :
      r.admin ≡ none → Does require_admin r (err invalid_configuration) r
  unfolding require_admin
  require_admin_uninitialized e = Does-bind _ (Does-value (admin-Does r) e) (Does-pure _ r)

  pub require_admin_signed :
      (a : H.Address)
      → r.admin ≡ some a
      → H.signed r.outside a ≡ true
      → Does require_admin r (ok tt) (record r { outside = H.after_auth r.outside a })
  unfolding require_admin
  require_admin_signed a e signed =
      Does-bind _ (Does-value (admin-Does r) e)
        (Does-bind _ (require_auth-Does r a signed) (Does-pure _ _))

  pub require_admin_unsigned :
      (a : H.Address) → r.admin ≡ some a → H.signed r.outside a ≡ false → Panics require_admin r
  unfolding require_admin
  require_admin_unsigned a e unsigned =
      Panics-later _ (Does-value (admin-Does r) e)
        (Panics-bind _ (require_auth-Panics r a unsigned))

  pub require_token_bound-Does :
      (token : H.Address)
      → Does
          (require_token_bound token)
          r
          (if is_some (r.binding token) then ok tt else err unbound_token)
          r
  unfolding require_token_bound
  require_token_bound-Does token =
      Does-bind _ (is_token_bound-Does r token) (by_cases (is_some (r.binding token)))
    where
      by_cases :
          (b : Bool)
          → Does
              (if b then pure (ok tt) else pure (err unbound_token))
              r
              (if b then ok tt else err unbound_token)
              r
      by_cases true = Does-pure _ r
      by_cases false = Does-pure _ r
