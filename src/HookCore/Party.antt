-- ===== src/HookCore/Party.antt =====
-- crates/hook-core/src/party.rs: the role that an account plays, and the gates of each role.
use safeguard_hooks.Prelude.{String, Bool, true, false}

pub data PartyRole : Type 0 where
  account from to spender : PartyRole

pub data GateClass : Type 0 where
  full policy_only : GateClass

unfoldable pub name : PartyRole → String
name account = "account"
name from = "from"
name to = "to"
name spender = "spender"

unfoldable pub gate_class : PartyRole → GateClass
gate_class account = full
gate_class from = full
gate_class to = full
gate_class spender = policy_only

-- `matches!(self.gate_class(), GateClass::Full)`
abbrev is_full : GateClass → Bool
is_full full = true
is_full policy_only = false

unfoldable pub holds_funds : PartyRole → Bool
unfolding gate_class
holds_funds r = is_full (gate_class r)

-- `impl Display for GateClass`
unfoldable pub to_string : GateClass → String
to_string full = "full"
to_string policy_only = "policy_only"

pub PartyRole-discrete : Discrete PartyRole
PartyRole-discrete = hlevel

-- `role == PartyRole::Spender`
unfoldable pub is_spender : PartyRole → Bool
is_spender spender = true
is_spender _ = false
