-- ===== src/Cli/Checks.antt =====
-- cli/src/main.rs: the single checks of `verify`, from the answer each is about.
use Prim.Native.Char.{code}
use Prim.Native.String.{◌++◌ as ◌<>◌}
use text.Mathlib.Text.{◌==◌ as str_eq}
use safeguard_hooks.Prelude.{
  ℕ, String, Bool, true, false, not, ◌&&◌, ◌||◌, ◌==◌, ltb, Option, none, some, List, [], ◌∷◌,
  Result, ok, err, if◌then◌else◌,
}
use safeguard_hooks.HookCore.Reason
use safeguard_hooks.HookCore.Reason.{RejectionReason}
use safeguard_hooks.Cli.Text.{trim, is_empty, all_chars, is_ascii_digit, read_u32}
use safeguard_hooks.Cli.Decimal.{display}
use safeguard_hooks.Cli.Revert.{ContractRevert, describe}
use safeguard_hooks.Cli.Outcome.{GateOutcome, allowed, denied}
use safeguard_hooks.Cli.Config.{Config, Policy, Token}

pub data Status : Type 0 where
  pass fail skip : Status

pub record Check : Type 0 where
  pub name : String
  pub status : Status
  pub detail : String

abbrev pub check : Status → (name detail : String) → Check
check status name detail = record { name = name; status = status; detail = detail }

-- `trim_matches('"')`
abbrev trim_quotes_start : String → String
trim_quotes_start String.[] = String.[]
trim_quotes_start (String.◌∷◌ c s) =
    let rest = trim_quotes_start s in if code c == 34 then rest else String.◌∷◌ c s

abbrev trim_quotes_end : String → String
trim_quotes_end String.[] = String.[]
trim_quotes_end (String.◌∷◌ c s) =
    let rest = trim_quotes_end s in
    if is_empty rest && code c == 34 then String.[] else String.◌∷◌ c rest

unfoldable pub unquote : String → String
unquote value = trim_quotes_start (trim_quotes_end (trim value))

-- `parse::<u32>()`: digits, after one `+` at most
abbrev digits_u32 : String → Option ℕ
digits_u32 s = if is_empty s || not (all_chars is_ascii_digit s) then none else read_u32 0 s

abbrev pub parse_u32 : String → Option ℕ
parse_u32 String.[] = none
parse_u32 (String.◌∷◌ c s) = if code c == 43 then digits_u32 s else digits_u32 (String.◌∷◌ c s)

-- `debug` prints a quoted text, and `json_policy` is serde_json's reading of
-- the member `policy`.
module _ (debug : String → String) (json_policy : String → Option String) where
  abbrev pub initialized_check : String → Check
  initialized_check value =
      if str_eq (unquote value) "true"
      then check pass "initialized" "initialize has run — the admin seat is claimed"
      else check fail "initialized" (
          "initialized returned "
          <> debug (unquote value)
          <> ": initialize never ran, so every hook fails closed")

  abbrev pub admin_check : Config → Result String String → Check
  admin_check config (err why) = check fail "admin matches the config" why
  admin_check config (ok raw) =
      let admin = unquote raw in
      if str_eq admin config.admin.public_key
      then check pass "admin matches the config" ("on-chain admin " <> admin)
      else check fail "admin matches the config" (
          "config records " <> config.admin.public_key <> " but the contract reports " <> admin
          <> " — one of the two is stale")

  abbrev described : Option String → String
  described (some id) = "policy gate → " <> id
  described none = "no policy gate (fail-closed on bindings and freeze only)"

  abbrev policy_check : (live : Option String) (recorded : Option Policy) → List Check
  policy_check (some live) (some recorded) =
      if str_eq live recorded.contract_id
      then check pass "recorded policy matches the contract" ("both name " <> live) ∷ []
      else check fail "recorded policy matches the contract" (
          "config records " <> recorded.contract_id <> " but the contract uses " <> live
          <> " — update the deployment record")
        ∷ []
  policy_check none recorded = []
  policy_check (some live) none = []

  abbrev is_unset : String → Bool
  is_unset raw = str_eq (unquote raw) "null" || is_empty (trim raw)

  -- Whether there is a configuration, and the checks on it.
  abbrev pub config_checks : Config → Result String String → Bool × List Check
  config_checks config (err why) = (false, check fail "compliance configuration present" why ∷ [])
  config_checks config (ok raw) =
      if is_unset raw
      then (
        false,
        check fail "compliance configuration present"
              "set_config has never run: the contract is inert and every hook reverts #9 (invalid_configuration)"
            ∷ [],
      )
      else (
        true,
        check pass "compliance configuration present" (described (json_policy raw))
            ∷ policy_check (json_policy raw) config.policy,
      )

  abbrev parsed_check : (func raw : String) → Option ℕ → Check
  parsed_check func raw none =
      check fail func (func <> " returned " <> debug (trim raw) <> ", which is not a u32")
  parsed_check func raw (some version) =
      if ltb version 1
      then check fail func (func <> " = " <> display version <> ", expected ≥ " <> display 1)
      else check pass func (func <> " = " <> display version)

  abbrev pub version_check : (func : String) → Result String String → Check
  version_check func (err why) = check fail func why
  version_check func (ok raw) = parsed_check func raw (parse_u32 (trim raw))

  abbrev pub token_check : Token → Result String String → Check
  token_check token (err why) = check fail ("token " <> token.alias <> " bound") why
  token_check token (ok value) =
      if str_eq (unquote value) "true"
      then check pass ("token " <> token.alias <> " bound")
          (token.contract_id <> " is in enforcement scope")
      else check fail ("token " <> token.alias <> " bound") (
          "token_is_bound returned "
          <> debug (unquote value)
          <> " for "
          <> token.contract_id
          <> " — the token is not gated, so its operations are not screened")

  abbrev pub probe_name : String
  probe_name = "fail-closed probe"

  abbrev pub probe_check : (probe : String) → Result String GateOutcome → Check
  probe_check probe (err why) = check fail probe_name why
  probe_check probe (ok allowed) = check fail probe_name (
      "the contract allowed before_transfer on unbound token " <> probe
      <> " — fail-closed is broken (docs/security.md)")
  probe_check probe (ok (denied (ContractRevert.rejection reason))) =
      let detail =
        "before_transfer on unbound token "
        <> probe
        <> " refused with #"
        <> display (Reason.code reason)
        <> " "
        <> Reason.name reason in
      if str_eq (Reason.name reason) "unbound_token"
      then check pass probe_name detail
      else check fail probe_name (detail <> " — expected #2 unbound_token")
  probe_check probe (ok (denied revert)) =
      check fail probe_name ("unexpected refusal: " <> describe revert)

  -- A gate that cannot evaluate is no decision.
  abbrev pub is_undecidable : RejectionReason → Bool
  is_undecidable RejectionReason.invalid_configuration = true
  is_undecidable RejectionReason.policy_unavailable = true
  is_undecidable _ = false

  abbrev pub sample_check : (account alias : String) → Result String GateOutcome → Check
  sample_check account alias (err why) = check fail ("gate sample on " <> alias) why
  sample_check account alias (ok allowed) =
      check pass ("gate sample on " <> alias) ("before_transfer(" <> account <> ") allowed")
  sample_check account alias (ok (denied (ContractRevert.rejection reason))) =
      let detail =
        "the gate refused #" <> display (Reason.code reason) <> " " <> Reason.name reason in
      if is_undecidable reason
      then check fail ("gate sample on " <> alias)
          (detail <> " — enforcement cannot reach a decision")
      else check pass ("gate sample on " <> alias) (detail <> " — the gate is live and refusing")
  sample_check account alias (ok (denied revert)) =
      check fail ("gate sample on " <> alias) ("unexpected refusal: " <> describe revert)
