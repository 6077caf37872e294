-- ===== src/HookCore/Codes.antt =====
-- The stable codes and names of crates/hook-core/src/reason.rs, read back.
use text.Mathlib.TextEquality.{eq_iff}
use safeguard_hooks.Prelude.{ℕ, String, ◌≡◌, ◌↔◌, refl, some, arith}
use safeguard_hooks.HookCore.Reason.{
  RejectionReason, unbound_token, name, code, from_name, from_code,
}

from_code-code : (r : RejectionReason) → from_code (code r) ≡ some r
unfolding from_code
from_code-code unbound_token = refl
from_code-code _ = refl

code-from_code : (c : ℕ) (r : RejectionReason) → from_code c ≡ some r → code r ≡ c
unfolding from_code
code-from_code c r h = ground arith

-- A code decodes to a reason exactly when it is the code of that reason.
pub from_code_iff : (c : ℕ) (r : RejectionReason) → (from_code c ≡ some r) ↔ (code r ≡ c)
from_code_iff c r = (code-from_code c r, λ h. rw (← h) (from_code-code r))

from_name-name : (r : RejectionReason) → from_name (name r) ≡ some r
unfolding from_name
from_name-name unbound_token = refl
from_name-name _ = refl

name-from_name : (s : String) (r : RejectionReason) → from_name s ≡ some r → name r ≡ s
unfolding from_name
name-from_name s r h = ground (
  arith,
  eq_iff "unbound_token" s,
  eq_iff "policy_denied" s,
  eq_iff "account_frozen" s,
  eq_iff "spender_not_authorized" s,
  eq_iff "sac_authorization_failed" s,
  eq_iff "invalid_configuration" s,
  eq_iff "policy_unavailable" s,
)

-- A text is read as a reason exactly when it is the name of that reason.
from_name_iff : (s : String) (r : RejectionReason) → (from_name s ≡ some r) ↔ (name r ≡ s)
from_name_iff s r = (name-from_name s r, λ h. rw (← h) (from_name-name r))
