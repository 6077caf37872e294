-- ===== src/Authorization.antt =====
-- crates/authorization/src/{admin, token}.rs: who may change the contract's state, and for which
-- tokens it enforces.
pub mod Gates
use safeguard_hooks.Prelude.{Bool, Option, none, some, is_some, Result, ok, err, if◌then◌else◌}
use safeguard_hooks.HookCore.Reason.{RejectionReason, invalid_configuration, unbound_token}
use safeguard_hooks.Host.{Host}
use safeguard_hooks.Host.Run.{M, pure, ◌>>=◌, ◌>>◌}
use safeguard_hooks.Host.Calls.{require_auth}
use safeguard_hooks.Storage.Entries
use safeguard_hooks.Storage.Entries.{admin}

module _ ⦃H : Host⦄ where
  open H use {Address}

  pub is_initialized : M Bool
  is_initialized = do pure (is_some (← admin))

  -- the body of `require_admin` after its read
  authorize : Option Address → M (Result RejectionReason (Unit {0}))
  authorize none = pure (err invalid_configuration)
  authorize (some a) = do require_auth a; pure (ok tt)

  pub require_admin : M (Result RejectionReason (Unit {0}))
  unfolding authorize
  require_admin = do stored ← admin; authorize stored

  pub is_token_bound : Address → M Bool
  is_token_bound token = Entries.is_token_bound token

  pub require_token_bound : Address → M (Result RejectionReason (Unit {0}))
  unfolding is_token_bound
  require_token_bound token = do
    bound ← is_token_bound token
    if bound then pure (ok tt) else pure (err unbound_token)
