-- ===== src/Compliance/Sac.antt =====
-- crates/compliance/src/sac.rs: the `authorized` view of the underlying Stellar Asset Contract.
use safeguard_hooks.Prelude.{String, Bool, [], ◌∷◌, Result, ok, err}
use safeguard_hooks.HookCore.Reason.{RejectionReason, sac_authorization_failed}
use safeguard_hooks.Host.{Host, Answer, value, malformed, failed}
use safeguard_hooks.Host.Run.{M, pure, ◌>>=◌}
use safeguard_hooks.Host.Calls.{try_invoke, try_invoke-Does}
use safeguard_hooks.Storage.Registry.{Registry, Does, Does-pure, Does-bind}

-- `SAC_AUTHORIZED_FN`
abbrev pub sac_authorized_fn : String
sac_authorized_fn = "authorized"

-- the match of `is_authorized`
abbrev pub classify : Answer → Result RejectionReason Bool
classify (value authorized) = ok authorized
classify malformed = err sac_authorization_failed
classify failed = err sac_authorization_failed

module _ ⦃H : Host⦄ where
  open H use {Address}

  pub is_authorized : (sac account : Address) → M (Result RejectionReason Bool)
  is_authorized sac account = do
    answer ← try_invoke sac sac_authorized_fn (account ∷ [])
    pure (classify answer)

  pub is_authorized-Does :
      (r : Registry Address H.Outside) (sac account : Address)
      → Does
          (is_authorized sac account)
          r
          (classify (H.answers r.outside sac sac_authorized_fn (account ∷ [])))
          (record r { outside = H.after_call r.outside sac sac_authorized_fn (account ∷ []) })
  unfolding is_authorized
  is_authorized-Does r sac account =
      Does-bind _ (try_invoke-Does r sac sac_authorized_fn _) (Does-pure _ _)
