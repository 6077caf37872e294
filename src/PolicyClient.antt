-- ===== src/PolicyClient.antt =====
-- crates/policy-client/src/client.rs: the fail-closed call of the external policy contract.
use safeguard_hooks.Prelude.{String, Bool, [], ◌∷◌, Result, ok, err}
use safeguard_hooks.HookCore.Reason.{RejectionReason, policy_unavailable}
use safeguard_hooks.Host.{Host, Answer, value, malformed, failed}
use safeguard_hooks.Host.Run.{M, pure, ◌>>=◌}
use safeguard_hooks.Host.Calls.{try_invoke, try_invoke-Does}
use safeguard_hooks.Storage.Registry.{Registry, Does, Does-pure, Does-bind}

-- `POLICY_FN`
abbrev pub policy_fn : String
policy_fn = "is_authorized"

-- the match of `is_authorized`
abbrev pub classify : Answer → Result RejectionReason Bool
classify (value authorized) = ok authorized
classify malformed = err policy_unavailable
classify failed = err policy_unavailable

-- `PolicyClient`, over a type of addresses, with its `new` and `address`.
pub record Client (A : Type 0) : Type 0 where
  pub address : A

pub new : {A : Type 0} → A → Client A
new address = record { address = address }

module _ ⦃H : Host⦄ where
  open H use {Address}

  pub is_authorized : (policy account token : Address) → M (Result RejectionReason Bool)
  is_authorized policy account token = do
    answer ← try_invoke policy policy_fn (account ∷ token ∷ [])
    pure (classify answer)

  -- `PolicyClient::is_authorized`
  pub client_is_authorized :
      Client Address → (account token : Address) → M (Result RejectionReason Bool)
  unfolding is_authorized
  client_is_authorized client account token = is_authorized client.address account token

  pub is_authorized-Does :
      (r : Registry Address H.Outside) (policy account token : Address)
      → let args = account ∷ token ∷ [] in
        Does
          (is_authorized policy account token)
          r
          (classify (H.answers r.outside policy policy_fn args))
          (record r { outside = H.after_call r.outside policy policy_fn args })
  unfolding is_authorized
  is_authorized-Does r policy account token =
      Does-bind _ (try_invoke-Does r policy policy_fn _) (Does-pure _ _)
