-- ===== src/Host.antt =====
-- The Soroban host as the contract sees it. The host is the soroban-sdk, which the sources only
-- call, so it is a parameter: a record of its operations, and of the documented behaviour that the
-- contract relies on. The laws speak of the `View` of a host environment, which is what can be
-- observed of it: the two storage classes, the events published, and all that is outside.
pub mod Run
pub mod Calls
pub mod Simple
use safeguard_hooks.Prelude.{
  ℕ, String, ◌≡◌, ◌≢◌, Bool, true, false, Option, none, some, List, [], ◌∷◌, ◌++◌, ltb, ◌≤◌,
  is_some, if◌then◌else◌,
}
use safeguard_hooks.Storage.Keys.{DataKey, ComplianceConfig, TokenBinding, key_eq}
use safeguard_hooks.Events.Kinds.{Event}

-- A stored value, by the type it was written at.
pub data Value (A : Type 0) : Type 0 where
  address : A → Value A
  config : ComplianceConfig A → Value A
  number : ℕ → Value A
  binding : TokenBinding A → Value A
  flag : Bool → Value A

-- What `try_invoke_contract::<bool, Error>` returns: `Ok(Ok(b))`, `Ok(Err(_))` or `Err(_)`.
pub data Answer : Type 0 where
  value : Bool → Answer
  malformed failed : Answer

pub record View (A W : Type 0) : Type 0 where
  pub instances : DataKey A → Option (Value A)
  pub persistents : DataKey A → Option (Value A)
  pub events : List (Event A)
  pub outside : W

-- A storage class with one more entry, and with one entry removed.
abbrev pub put :
    {A : Type 0}
    → Discrete A
    → (DataKey A → Option (Value A))
    → DataKey A
    → Option (Value A)
    → DataKey A
    → Option (Value A)
put d f k v j = if key_eq d k j then v else f j

pub record Host : Type 1 where
  pub Address : Type 0
  pub Address-discrete : Discrete Address
  pub Env : Type 0
  -- Signatures, other contracts and their state.
  pub Outside : Type 0
  pub view : Env → View Address Outside
  -- Whether an address signed the invocation, and what is left after the signature is used.
  pub signed : Outside → Address → Bool
  pub after_auth : Outside → Address → Outside
  -- The answer of a contract to a call, and what the call leaves behind.
  pub answers : Outside → Address → String → List Address → Answer
  pub after_call : Outside → Address → String → List Address → Outside
  -- The remaining lifetime of a persistent entry, in ledgers.
  pub ttl : Env → DataKey Address → ℕ
  -- The operations.
  pub instance_has : Env → DataKey Address → Bool
  pub persistent_has : Env → DataKey Address → Bool
  pub instance_get : Env → DataKey Address → Option (Value Address)
  pub persistent_get : Env → DataKey Address → Option (Value Address)
  pub instance_set : Env → DataKey Address → Value Address → Env
  pub persistent_set : Env → DataKey Address → Value Address → Env
  pub persistent_remove : Env → DataKey Address → Env
  pub extend_ttl : Env → DataKey Address → ℕ → ℕ → Env
  pub require_auth : Env → Address → Option Env
  pub publish : Env → Event Address → Env
  pub try_invoke_contract : Env → Address → String → List Address → Answer × Env
  -- `has` and `get` read the entry; `set` and `remove` change that entry alone.
  pub instance_has_lem :
      (e : Env) (k : DataKey Address) → instance_has e k ≡ is_some ((view e).instances k)
  pub instance_get_lem : (e : Env) (k : DataKey Address) → instance_get e k ≡ (view e).instances k
  pub persistent_has_lem :
      (e : Env) (k : DataKey Address) → persistent_has e k ≡ is_some ((view e).persistents k)
  pub persistent_get_lem :
      (e : Env) (k : DataKey Address) → persistent_get e k ≡ (view e).persistents k
  pub view-instance_set :
      (e : Env) (k : DataKey Address) (v : Value Address)
      → view (instance_set e k v)
        ≡ record (view e) { instances = put Address-discrete (view e).instances k (some v) }
  pub view-persistent_set :
      (e : Env) (k : DataKey Address) (v : Value Address)
      → view (persistent_set e k v)
        ≡ record (view e) { persistents = put Address-discrete (view e).persistents k (some v) }
  pub view-persistent_remove :
      (e : Env) (k : DataKey Address)
      → view (persistent_remove e k)
        ≡ record (view e) { persistents = put Address-discrete (view e).persistents k none }
  -- Extending a lifetime is not seen, and does nothing above the threshold.
  pub view-extend_ttl :
      (e : Env) (k : DataKey Address) (threshold extend_to : ℕ)
      → view (extend_ttl e k threshold extend_to) ≡ view e
  pub ttl-extend_ttl :
      (e : Env) (k : DataKey Address) (threshold extend_to : ℕ)
      → persistent_has e k ≡ true
      → ttl (extend_ttl e k threshold extend_to) k
        ≡ (if ltb (ttl e k) threshold then extend_to else ttl e k)
  -- `require_auth` returns only if the address signed.
  pub require_auth_signed :
      (e : Env) (a : Address)
      → signed (view e).outside a ≡ true
      → (e' : Env) × (require_auth e a ≡ some e')
        × (view e' ≡ record (view e) { outside = after_auth (view e).outside a })
  pub require_auth_unsigned :
      (e : Env) (a : Address) → signed (view e).outside a ≡ false → require_auth e a ≡ none
  pub view-publish :
      (e : Env) (ev : Event Address)
      → view (publish e ev) ≡ record (view e) { events = (view e).events ++ ev ∷ [] }
  -- A call reaches neither the contract's storage nor its events.
  pub try_invoke_contract_lem :
      (e : Env) (c : Address) (fn : String) (args : List Address)
      → ((try_invoke_contract e c fn args).0 ≡ answers (view e).outside c fn args)
        × (view (try_invoke_contract e c fn args).1
            ≡ record (view e) { outside = after_call (view e).outside c fn args })
