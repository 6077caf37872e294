-- ===== src/Compliance/Evaluator/Clearance.antt =====
-- When an evaluation allows: every party is cleared, in whatever order they are asked.
use safeguard_hooks.Prelude.{
  and_true, String, ◌≡◌, ◌↔◌, refl, Bool, true, false, ◌&&◌, Option, none, some, List, [], ◌∷◌,
  flat_map, All, All-append, All-flat_map,
}
use safeguard_hooks.HookCore.Party.{PartyRole}
use safeguard_hooks.Host.{Host}
use safeguard_hooks.Storage.Keys.{ComplianceConfig}
use safeguard_hooks.PolicyClient.{policy_fn}
use safeguard_hooks.Compliance.Sac.{sac_authorized_fn}
use safeguard_hooks.Compliance.Evaluator.Asking.{asked}
use safeguard_hooks.Compliance.Evaluator.Checks.{Check, is_holder, ask_policy, ask_sac, checks_of}
use safeguard_hooks.Compliance.Evaluator.Agreement.{Passes, Free}

module _ ⦃H : Host⦄ where
  open H use {Address, Outside, answers, after_call}

  -- The party is not frozen, where it holds funds.
  abbrev pub Thawed :
      (frozen : Address → Address → Bool) (token : Address) → PartyRole × Address → Type 0
  Thawed frozen token (role, who) = is_holder role ≡ true → frozen token who ≡ false

  and_false : (a b : Bool) → ((a && b) ≡ false) ↔ (a ≡ true → b ≡ false)
  and_false true b = (λ h _. h, λ h. h refl)
  and_false false b = (λ _ e. cc, λ _. refl)

  module _ (frozen : Address → Address → Bool) (token : Address) (config : ComplianceConfig Address)
      (sac : Option Address) (Yes : Address → String → List Address → Type 0) where
    -- What an operation asks of one of its parties.
    pub record Cleared (party : PartyRole × Address) : Type 0 where
      pub not_frozen : is_holder party.0 ≡ true → frozen token party.1 ≡ false
      pub policy_agrees :
          (policy : Address)
          → config.policy ≡ some policy
          → Yes policy policy_fn (party.1 ∷ token ∷ [])
      pub sac_agrees :
          (asset : Address)
          → is_holder party.0 ≡ true
          → config.sac_passthrough ≡ true
          → sac ≡ some asset
          → Yes asset sac_authorized_fn (party.1 ∷ [])

    abbrev party_checks : PartyRole × Address → List (Check Address)
    party_checks = checks_of frozen token config sac

    policy-Passes :
        (role : PartyRole) (who : Address) (o : Option Address)
        → All (Passes Yes) (ask_policy token role who o)
          ↔ ((policy : Address) → o ≡ some policy → Yes policy policy_fn (who ∷ token ∷ []))
    policy-Passes role who none = (λ _ policy e. cc, λ _. tt)
    policy-Passes role who (some p) = (
      λ h policy e. let same_policy : p ≡ policy = cc in rw (← same_policy) h.0,
      λ h. (h p refl, tt),
    )

    sac-Passes :
        (b : Bool) (who : Address) (o : Option Address)
        → All (Passes Yes) (ask_sac b who o)
          ↔ ((asset : Address) → b ≡ true → o ≡ some asset → Yes asset sac_authorized_fn (who ∷ []))
    sac-Passes false who o = (λ _ asset e. cc, λ _. tt)
    sac-Passes true who none = (λ _ asset t e. cc, λ _. tt)
    sac-Passes true who (some s) = (
      λ h asset t e. let same_sac : s ≡ asset = cc in rw (← same_sac) h.0,
      λ h. (h s refl refl, tt),
    )

    party-Passes :
        (party : PartyRole × Address) → All (Passes Yes) (party_checks party) ↔ Cleared party
    party-Passes (role, who) =
        let (policy_to, policy_from) = policy-Passes role who config.policy in
        let (sac_to, sac_from) = sac-Passes (is_holder role && config.sac_passthrough) who sac in
        let (split, join) =
          All-append (Passes Yes) (ask_policy token role who config.policy)
            (ask_sac (is_holder role && config.sac_passthrough) who sac) in
        let (free_to, free_from) = and_false (is_holder role) (frozen token who) in
        let (_, both) = and_true (is_holder role) config.sac_passthrough in
        let (each, _) = and_true (is_holder role) config.sac_passthrough in
        (
          λ h.
              let (policy, asked) = split h.1 in
              record {
                not_frozen = free_to h.0;
                policy_agrees = policy_to policy;
                sac_agrees =
                    λ asset holder passthrough e. sac_to asked asset (both (holder, passthrough)) e;
              },
          λ h. (
            free_from h.not_frozen,
            join (
              policy_from h.policy_agrees,
              sac_from λ asset t e. h.sac_agrees asset (each t).0 (each t).1 e,
            ),
          ),
        )

    -- All checks of all parties pass exactly when each party is cleared.
    pub parties_pass :
        (ps : List (PartyRole × Address))
        → All (Passes Yes) (flat_map party_checks ps) ↔ All Cleared ps
    parties_pass = All-flat_map (Passes Yes) Cleared party_checks party-Passes

  module _ (frozen : Address → Address → Bool) (token : Address) (config : ComplianceConfig Address)
      (sac : Option Address) where
    policy-Free :
        (role : PartyRole) (who : Address) (o : Option Address)
        → All Free (ask_policy token role who o)
    policy-Free role who none = tt
    policy-Free role who (some p) = (tt, tt)

    sac-Free : (b : Bool) (who : Address) (o : Option Address) → All Free (ask_sac b who o)
    sac-Free false who o = tt
    sac-Free true who none = tt
    sac-Free true who (some s) = (tt, tt)

    party-Free :
        (party : PartyRole × Address)
        → All Free (checks_of frozen token config sac party) ↔ Thawed frozen token party
    party-Free (role, who) =
        let (to, from) = and_false (is_holder role) (frozen token who) in
        (
          λ h. to h.0,
          λ h. (
            from h,
            (All-append Free (ask_policy token role who config.policy) _).1
                (policy-Free role who config.policy, sac-Free _ who sac),
          ),
        )

    pub parties-Free :
        (ps : List (PartyRole × Address))
        → All Free (flat_map (checks_of frozen token config sac) ps) ↔ All (Thawed frozen token) ps
    parties-Free =
        All-flat_map Free (Thawed frozen token) (checks_of frozen token config sac) party-Free
