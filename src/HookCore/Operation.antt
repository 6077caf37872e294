-- ===== src/HookCore/Operation.antt =====
-- crates/hook-core/src/operation.rs: the operations that a bound token routes through the hooks.
use safeguard_hooks.Prelude.{String, Bool, true, false, List, [], ◌∷◌}
use safeguard_hooks.HookCore.Party.{PartyRole, account, from, to, spender}

pub data Operation : Type 0 where
  register deposit merge transfer transfer_from withdraw : Operation

unfoldable pub name : Operation → String
name register = "register"
name deposit = "deposit"
name merge = "merge"
name transfer = "transfer"
name transfer_from = "transfer_from"
name withdraw = "withdraw"

unfoldable pub parties : Operation → List PartyRole
parties register = account ∷ []
parties merge = account ∷ []
parties deposit = from ∷ to ∷ []
parties transfer = from ∷ to ∷ []
parties withdraw = from ∷ to ∷ []
parties transfer_from = spender ∷ from ∷ to ∷ []

unfoldable pub is_bilateral : Operation → Bool
is_bilateral deposit = true
is_bilateral transfer = true
is_bilateral transfer_from = true
is_bilateral withdraw = true
is_bilateral _ = false
