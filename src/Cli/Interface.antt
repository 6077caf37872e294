-- ===== src/Cli/Interface.antt =====
-- The calls of contracts/compliance-hooks/src/lib.rs as `stellar contract invoke` takes them: the name
-- of the function, and a flag for each of its parameters.
use mathlib.Core.Option
use safeguard_hooks.Prelude.{String, some, List, [], ◌∷◌}
use safeguard_hooks.Cli.Arguments.{address, opt_address, boolean, invoke_args}
use safeguard_hooks.ComplianceHooks.Transition.{
  Call, initialize, set_config, bind_token, unbind_token, freeze, unfreeze, before_register,
  before_withdraw, before_merge, before_deposit, before_transfer, before_transfer_from,
}

abbrev pub function_of : Call String → String
function_of (initialize a) = "initialize"
function_of (set_config policy sac_passthrough) = "set_config"
function_of (bind_token token sac) = "bind_token"
function_of (unbind_token token) = "unbind_token"
function_of (freeze token account) = "freeze"
function_of (unfreeze token account) = "unfreeze"
function_of (before_register token account) = "before_register"
function_of (before_withdraw token account) = "before_withdraw"
function_of (before_merge token account) = "before_merge"
function_of (before_deposit token source target) = "before_deposit"
function_of (before_transfer token source target) = "before_transfer"
function_of (before_transfer_from token delegate source target) = "before_transfer_from"

abbrev pub for_account : (token account : String) → List (String × String)
for_account token account = ("token", address token) ∷ ("account", address account) ∷ []

abbrev pub for_pair : (token source target : String) → List (String × String)
for_pair token source target =
    ("token", address token) ∷ ("from", address source) ∷ ("to", address target) ∷ []

abbrev pub params_of : Call String → List (String × String)
params_of (initialize a) = ("admin", address a) ∷ []
params_of (set_config policy sac_passthrough) =
    ("policy", opt_address policy) ∷ ("sac_passthrough", boolean sac_passthrough) ∷ []
params_of (bind_token token sac) = ("token", address token) ∷ ("sac", opt_address sac) ∷ []
params_of (unbind_token token) = ("token", address token) ∷ []
params_of (freeze token account) = for_account token account
params_of (unfreeze token account) = for_account token account
params_of (before_register token account) = for_account token account
params_of (before_withdraw token account) = for_account token account
params_of (before_merge token account) = for_account token account
params_of (before_deposit token source target) = for_pair token source target
params_of (before_transfer token source target) = for_pair token source target
params_of (before_transfer_from token delegate source target) =
    ("token", address token)
    ∷ ("spender", address delegate)
    ∷ ("from", address source)
    ∷ ("to", address target)
    ∷ []

-- The command that makes a call.
abbrev pub command : (source hooks_id network : String) → Call String → List String
command source hooks_id network c =
    invoke_args (some source) hooks_id network (function_of c) (params_of c)

-- The call with its addresses read.
abbrev pub decoded : {A : Type 0} → (String → A) → Call String → Call A
decoded f (initialize a) = initialize (f a)
decoded f (set_config policy sac_passthrough) = set_config (Option.map f policy) sac_passthrough
decoded f (bind_token token sac) = bind_token (f token) (Option.map f sac)
decoded f (unbind_token token) = unbind_token (f token)
decoded f (freeze token account) = freeze (f token) (f account)
decoded f (unfreeze token account) = unfreeze (f token) (f account)
decoded f (before_register token account) = before_register (f token) (f account)
decoded f (before_withdraw token account) = before_withdraw (f token) (f account)
decoded f (before_merge token account) = before_merge (f token) (f account)
decoded f (before_deposit token source target) = before_deposit (f token) (f source) (f target)
decoded f (before_transfer token source target) = before_transfer (f token) (f source) (f target)
decoded f (before_transfer_from token delegate source target) =
    before_transfer_from (f token) (f delegate) (f source) (f target)
