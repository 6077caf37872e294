-- ===== src/Tests/Cli.antt =====
-- Runs of the command line's functions.
use native.Mathlib.Decide.{ℕ_discrete}
use safeguard_hooks.Prelude.{
  map, ℕ, String, ◌≡◌, ◌↔◌, refl, Bool, true, false, Option, none, some, List, [], ◌∷◌, Result, ok,
}
use safeguard_hooks.HookCore.Reason
use safeguard_hooks.HookCore.Reason.{RejectionReason}
use safeguard_hooks.SamplePolicy.{constructor, is_authorized, denies_iff}
use safeguard_hooks.Cli.Text.{trim, lines, last_lines, last_nonempty, after}
use safeguard_hooks.Cli.Arguments.{view_args, parse_deployed_id}
use safeguard_hooks.Cli.Arguments.Injective.{invoke_args_injective}
use safeguard_hooks.Cli.Arguments.DeployedId.{IsLastId, parse_deployed_id_iff}
use safeguard_hooks.Cli.Revert.{rejection, from_code, decode_lines, decode_contract_error}
use safeguard_hooks.Cli.Outcome.{RunOutcome, combined, GateOutcome, allowed, denied, gate}
use safeguard_hooks.Cli.Outcome.Reports.{gate_iff}
use safeguard_hooks.Cli.Config.{Config, resolve_token, admin_source}
use safeguard_hooks.Cli.Config.Resolution.{Resolves, Signs, resolve_token_lem, admin_source_iff}

-- The revert of a frozen account, as the stellar CLI prints it, and one that is not a contract's.
frozen_revert :
    decode_contract_error "simulating\nHostError: Error(Contract, #4)\nsee the log\n"
    ≡ some (rejection RejectionReason.account_frozen)
unfolding decode_contract_error decode_lines lines after from_code Reason.from_code
frozen_revert = refl

auth_failure :
    decode_contract_error "HostError: Error(Auth, InvalidAction)\nError(Contract, #)" ≡ none
unfolding decode_contract_error decode_lines lines after
auth_failure = refl

tail_of_output : last_nonempty "first\r\n  second  \n\n" ≡ some "second"
unfolding last_nonempty last_lines lines
tail_of_output = refl

abbrev hooks : String
hooks = "C0"

abbrev net : String
net = "local"

abbrev func : String
func = "unbind_token"

abbrev admin : Option String
admin = some "admin"

abbrev token_param : List (String × String)
token_param = ("token", "C5") ∷ []

invoke_args_injective_example :
    (admin ≡ admin) × (hooks ≡ hooks) × (net ≡ net) × (func ≡ func) × (token_param ≡ token_param)
invoke_args_injective_example =
    invoke_args_injective admin admin hooks hooks net net func func token_param token_param refl

abbrev deployed_id : String
deployed_id = "CABCDEFGHIJKLMNOPQRSTUVWXYZ234567ABCDEFGHIJKLMNOPQRSTUVW"

abbrev pub deploy_output : String
deploy_output = "Deployed!\n  CABCDEFGHIJKLMNOPQRSTUVWXYZ234567ABCDEFGHIJKLMNOPQRSTUVW \n\n"

parsed : parse_deployed_id deploy_output ≡ some deployed_id
unfolding parse_deployed_id last_lines lines
parsed = refl

parse_deployed_id_iff_example :
    (parse_deployed_id deploy_output ≡ some deployed_id)
    ↔ IsLastId (map trim (lines deploy_output)) deployed_id
parse_deployed_id_iff_example = parse_deployed_id_iff deploy_output deployed_id

abbrev pub record_of : Config
record_of = record {
  network = "local";
  rpc_url = "http://localhost:8000";
  network_passphrase = "Standalone";
  hooks_contract_id = "C0";
  policy = none;
  sac_passthrough = true;
  admin = record {
    public_key = "G1";
    stellar_identity = none;
    secret_key_env = some "ADMIN_SECRET";
  };
  tokens = record { alias = "usd"; contract_id = "C5"; sac_contract_id = some "C8" } ∷ [];
}

abbrev environment : String → Option String
environment name = some "S1"

resolve_token_lem_example : Resolves (λ s. s) record_of "usd" "C5"
unfolding resolve_token
resolve_token_lem_example = resolve_token_lem (λ s. s) record_of "usd" "C5" refl

admin_source_iff_example :
    (admin_source environment record_of none ≡ ok "S1")
    ↔ Signs environment none none (some "ADMIN_SECRET") "S1"
admin_source_iff_example = admin_source_iff environment record_of none "S1"

abbrev printed : RunOutcome
printed = record { ok = false; stdout = ""; stderr = "HostError: Error(Contract, #2)" }

abbrev runner : List String → ℕ → Result String RunOutcome × ℕ
runner args n = (ok printed, n)

gate_iff_example :
    let argv = view_args "G1" "C0" "local" "before_merge" [] in
    ((◌≡◌ {A = Result String GateOutcome}
        (gate runner "G1" "C0" "local" "before_merge" [] 0).0
        (ok (denied (rejection RejectionReason.unbound_token))))
      ↔ ((r : RunOutcome) × (◌≡◌ {A = Result String RunOutcome} (runner argv 0).0 (ok r))
          × (r.ok ≡ false)
          × (decode_contract_error (combined r) ≡ some (rejection RejectionReason.unbound_token))))
    × ((◌≡◌ {A = Result String GateOutcome}
          (gate runner "G1" "C0" "local" "before_merge" [] 0).0
          (ok allowed))
        ↔ ((r : RunOutcome) × (◌≡◌ {A = Result String RunOutcome} (runner argv 0).0 (ok r))
            × (r.ok ≡ true)))
gate_iff_example =
    gate_iff runner "G1" "C0" "local" "before_merge" [] 0 (rejection RejectionReason.unbound_token)

denies_iff_example :
    (answer : Bool) × (is_authorized ℕ_discrete (constructor ℕ_discrete (some 40) none) 40 5
      ≡ some answer)
    × ((answer ≡ false) ↔ (◌≡◌ {A = Option ℕ} (some 40) (some 40)))
denies_iff_example = denies_iff ℕ_discrete (some 40) none 40 5
