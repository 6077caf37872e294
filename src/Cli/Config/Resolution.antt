-- ===== src/Cli/Config/Resolution.antt =====
-- What cli/src/config.rs resolves, and from where.
use mathlib.Core.List.{Memᴰ}
use mathlib.Core.Option
use Prim.Native.String.{◌++◌ as ◌<>◌}
use text.Mathlib.Text.{◌==◌ as str_eq, starts_with}
use text.Mathlib.TextEquality.{eq_iff}
use safeguard_hooks.Prelude.{
  String, ◌≡◌, ◌≢◌, ◌↔◌, ◌⊎◌, inl, inr, refl, ap, ◌∙◌, Bool, true, false, ◌||◌, Option, none, some,
  Result, ok, err, find, find_sound, find-none, if◌then◌else◌,
}
use safeguard_hooks.Cli.Text.{is_empty}
use safeguard_hooks.Cli.Config.{
  Config, Token, unknown_token, resolved, resolve_token, sac_for, secret_of, source_of,
  admin_source,
}

abbrev named : String → Token → Bool
named arg t = str_eq t.alias arg

module _ (debug : String → String) (config : Config) (arg : String) where
  -- `--token` names a token by its alias, and then that token's contract is meant, or it is itself
  -- an address and no alias.
  abbrev pub Resolves : String → Type 0
  Resolves id =
      ((t : Token) × Memᴰ t config.tokens × (t.alias ≡ arg) × (t.contract_id ≡ id))
      ⊎ (((t : Token) → Memᴰ t config.tokens → t.alias ≢ arg)
          × ((starts_with arg "C" || starts_with arg "G") ≡ true)
          × (id ≡ arg))

  alias_of :
      (t : Token) → find (named arg) config.tokens ≡ some t → Memᴰ t config.tokens × (t.alias ≡ arg)
  alias_of t e =
      let (holds, at) = find_sound (named arg) config.tokens t e in
      (at, (eq_iff t.alias arg).0 holds)

  -- What a `--token` argument resolves to is the contract of a configured token with that alias,
  -- or, where no token has the alias, the argument itself, which then starts like an address.
  pub resolve_token_lem : (id : String) → resolve_token debug config arg ≡ ok id → Resolves id
  unfolding resolve_token
  resolve_token_lem id h = by_token (find (named arg) config.tokens) refl h
    where
      by_address :
          (b : Bool)
          → (starts_with arg "C" || starts_with arg "G") ≡ b
          → find (named arg) config.tokens ≡ none
          → (if b then ok arg else err (unknown_token debug config arg)) ≡ ok id
          → Resolves id
      by_address true e missing h = inr (
        λ t at same_alias.
            let named_so = (eq_iff t.alias arg).1 same_alias in
            let other = find-none (named arg) config.tokens t missing at in cc,
        e,
        cc,
      )
      by_address false e missing h = cc

      by_token :
          (o : Option Token)
          → find (named arg) config.tokens ≡ o
          → resolved debug config arg o ≡ ok id
          → Resolves id
      by_token (some t) e h = let (at, same_alias) = alias_of t e in inl (t, at, same_alias, cc)
      by_token none e h = by_address _ refl e h

  -- The SAC that is bound with a token is the SAC of the very token that the argument resolves to.
  sac_for_lem :
      (sac : String)
      → sac_for config arg ≡ some sac
      → (t : Token) × Memᴰ t config.tokens
        × (t.alias ≡ arg)
        × (t.sac_contract_id ≡ some sac)
        × (resolve_token debug config arg ≡ ok t.contract_id)
  unfolding sac_for resolve_token Option.bind
  sac_for_lem sac h = by_token (find (named arg) config.tokens) refl h
    where
      by_token :
          (o : Option Token)
          → find (named arg) config.tokens ≡ o
          → Option.bind o (λ t. t.sac_contract_id) ≡ some sac
          → (t : Token) × Memᴰ t config.tokens
            × (t.alias ≡ arg)
            × (t.sac_contract_id ≡ some sac)
            × (resolved debug config arg (find (named arg) config.tokens) ≡ ok t.contract_id)
      by_token none e h = cc
      by_token (some t) e h =
          let (at, same_alias) = alias_of t e in
          (t, at, same_alias, h, ap (resolved debug config arg) e)

module _ (env_var : String → Option String) where
  -- The order of precedence of the signing source.
  abbrev pub Signs : (explicit identity env : Option String) → String → Type 0
  Signs explicit identity env source =
      (explicit ≡ some source)
      ⊎ (((explicit ≡ none) × (identity ≡ some source))
          ⊎ ((explicit ≡ none)
              × (identity ≡ none)
              × (name : String) × (env ≡ some name)
              × (env_var name ≡ some source)
              × (is_empty source ≡ false)))

  abbrev unset : String → Result String String
  unset name = err ("config names admin secret in $" <> name <> ", which is not set")

  nonempty :
      (name s source : String) (b : Bool)
      → is_empty s ≡ b
      → ((if b then unset name else ok s) ≡ ok source)
        ↔ ((some s ≡ some source) × (is_empty source ≡ false))
  nonempty name s source true e =
      (λ h. cc, λ h. let same_one : s ≡ source = cc (h.0) in cc (h.1, ap is_empty same_one))
  nonempty name s source false e =
      (λ h. let same_one : s ≡ source = cc in (ap some same_one, rw (← same_one) e), λ h. cc (h.0))

  secret :
      (name : String) (o : Option String) (source : String)
      → (secret_of env_var name o ≡ ok source) ↔ ((o ≡ some source) × (is_empty source ≡ false))
  secret name none source = (λ h. cc, λ h. cc (h.0))
  secret name (some s) source = nonempty name s source (is_empty s) refl

  source_iff :
      (explicit identity env : Option String) (source : String)
      → (source_of env_var explicit identity env ≡ ok source) ↔ Signs explicit identity env source
  source_iff (some x) identity env source = (
    λ h. inl cc,
    λ h. elim h [ inl p ↦ cc | inr q ↦ elim q [ inl p ↦ cc (p.0) | inr p ↦ cc (p.0) ] ],
  )
  source_iff none (some x) env source = (
    λ h. inr (inl (refl, cc)),
    λ h. elim h [ inl p ↦ cc | inr q ↦ elim q [ inl p ↦ cc (p.1) | inr p ↦ cc (p.1) ] ],
  )
  source_iff none none none source = (
    λ h. cc,
    λ h. elim h [
      | inl p ↦ cc
      | inr q ↦ elim q [ inl p ↦ cc (p.1) | inr (x, y, name, p, z, w) ↦ cc (p) ]
    ],
  )
  source_iff none none (some name) source = (
    λ h.
        let (held, full) = (secret name (env_var name) source).0 h in
        inr (inr (refl, refl, name, refl, held, full)),
    λ h. elim h [
      | inl p ↦ cc
      | inr q ↦ elim q [
        | inl p ↦ cc (p.1)
        | inr (x, y, other, p, held, full) ↦
            let same_name : name ≡ other = cc (p) in
            (secret name (env_var name) source).1 (ap env_var same_name ∙ held, full)
      ]
    ],
  )

  -- The admin signs with the explicit source; else with the configured identity; else with the
  -- secret that the configured environment variable holds, if that is not empty; and in no other
  -- case is there a source.
  pub admin_source_iff :
      (config : Config) (explicit : Option String) (source : String)
      → (admin_source env_var config explicit ≡ ok source)
        ↔ Signs explicit config.admin.stellar_identity config.admin.secret_key_env source
  unfolding admin_source
  admin_source_iff config explicit source =
      source_iff explicit config.admin.stellar_identity config.admin.secret_key_env source
