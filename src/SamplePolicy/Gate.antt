-- ===== src/SamplePolicy/Gate.antt =====
-- contracts/sample-policy/src/lib.rs behind crates/compliance/src/evaluator.rs: what a deployment with
-- the sample policy lets through.
use safeguard_hooks.Prelude.{
  ◌≡◌, ◌≢◌, ◌↔◌, inl, inr, refl, subst, ap, ◌∙◌, Bool, true, false, Bool-cases, Option, some, List,
  [], ◌∷◌, zip, length, ◌==◌, All, All-both, sym, flat_map,
}
use safeguard_hooks.HookCore.Party.{PartyRole}
use safeguard_hooks.HookCore.Operation.{Operation, parties}
use safeguard_hooks.HookCore.Decision.{allow}
use safeguard_hooks.Host.{Host, value}
use safeguard_hooks.Host.Run.{done}
use safeguard_hooks.Storage.Keys.{ComplianceConfig, TokenBinding}
use safeguard_hooks.Storage.Registry.{Registry, Shows}
use safeguard_hooks.PolicyClient.{policy_fn}
use safeguard_hooks.Compliance.Evaluator.{evaluate}
use safeguard_hooks.Compliance.Evaluator.Clearance.{Thawed}
use safeguard_hooks.Compliance.Evaluator.Questions.{questions_of, AllTrue}
use safeguard_hooks.Compliance.Evaluator.Allows.{allow_iff}
use safeguard_hooks.SamplePolicy.{Stored, constructor, is_authorized, denies_iff}

module _ ⦃H : Host⦄ where
  open H use {Address, Address-discrete, Env, Outside, answers, after_call}

  -- The worlds that questions to the policy lead to.
  pub data Later (policy : Address) (w : Outside) : Outside → Type 0 where
    now : Later policy w w
    asked :
        (v : Outside) (account token : Address)
        → Later policy w v
        → Later policy w (after_call v policy policy_fn (account ∷ token ∷ []))

  -- The contract runs the code of the sample policy on what it has stored: a question to it is
  -- answered with what `is_authorized` returns, and as that writes nothing, the same holds after any
  -- number of such questions.
  abbrev pub Runs : (policy : Address) → Stored {A = Address} Address-discrete → Outside → Type 0
  Runs policy stored w =
      (v : Outside) (account token : Address) (b : Bool)
      → Later policy w v
      → is_authorized Address-discrete stored account token ≡ some b
      → answers v policy policy_fn (account ∷ token ∷ []) ≡ value b

  -- A party may pass: it is not frozen where it holds funds, and it is not the blocked account.
  abbrev pub MayPass :
      (frozen : Address → Address → Bool) (token : Address) (blocked : Option Address)
      → PartyRole × Address
      → Type 0
  MayPass frozen token blocked (role, who) = Thawed frozen token (role, who) × (blocked ≢ some who)

  module _ (policy : Address) (blocked : Option Address)
      (stored : Stored {A = Address} Address-discrete) (w : Outside)
      (runs : Runs policy (constructor Address-discrete blocked stored) w) where
    agrees_iff :
        (v : Outside) (account token : Address)
        → Later policy w v
        → (answers v policy policy_fn (account ∷ token ∷ []) ≡ value true)
          ↔ (blocked ≢ some account)
    agrees_iff v account token later =
        let (answer, returned, denied) = denies_iff Address-discrete blocked stored account token in
        let said = runs v account token answer later returned in
        (
          λ agreed hit. let refused = denied.1 hit in cc (agreed, said, refused),
          λ free. elim (Bool-cases answer) [
            | inl yes_said ↦ said ∙ ap value yes_said
            | inr refused ↦ absurd (free (denied.0 refused))
          ],
        )

    abbrev Unblocked : PartyRole × Address → Type 0
    Unblocked (role, who) = blocked ≢ some who

    module _ (token : Address) (sac : Option Address) where
      abbrev config : ComplianceConfig Address
      config = record { policy = some policy; sac_passthrough = false }

      -- Without passthrough the policy alone is asked, about each party.
      policy_alone :
          (role : PartyRole) (who : Address) (ps : List (PartyRole × Address))
          → questions_of token config sac ((role, who) ∷ ps)
            ≡ record { contract = policy; fn = policy_fn; args = who ∷ token ∷ [] }
              ∷ questions_of token config sac ps
      unfolding flat_map
      policy_alone PartyRole.spender who ps = refl
      policy_alone PartyRole.account who ps = refl
      policy_alone PartyRole.from who ps = refl
      policy_alone PartyRole.to who ps = refl

      AllTrue-iff :
          (ps : List (PartyRole × Address)) (v : Outside)
          → Later policy w v
          → AllTrue (questions_of token config sac ps) v ↔ All Unblocked ps
      unfolding AllTrue flat_map
      AllTrue-iff [] v later = (λ h. tt, λ h. tt)
      AllTrue-iff ((role, who) ∷ ps) v later =
          let (one_to, one_from) = agrees_iff v who token later in
          let (to_rest, from_rest) =
            AllTrue-iff ps (after_call v policy policy_fn (who ∷ token ∷ []))
              (asked v who token later) in
          let same_list = policy_alone role who ps in
          (
            λ h.
                let (said, rest) = subst (λ qs. AllTrue qs v) same_list h in
                (one_to said, to_rest rest),
            λ h. subst (λ qs. AllTrue qs v) (sym same_list) (one_from h.0, from_rest h.1),
          )

  -- Where the configured policy is a contract that runs the sample policy as it was deployed, on
  -- stored data that only its constructor writes, and SAC passthrough is off, the operation of a bound
  -- token on one account for each role is allowed exactly when no holder among its parties is frozen
  -- and none of its parties, the spender included, is the account that the policy was deployed to
  -- block.
  pub sample_allow_iff :
      (r : Registry Address Outside) (token : Address) (op : Operation) (accounts : List Address)
      (policy : Address) (blocked : Option Address) (stored : Stored {A = Address} Address-discrete)
      (b : TokenBinding Address) (e : Env)
      → Shows e r
      → Runs policy (constructor Address-discrete blocked stored) r.outside
      → r.config ≡ some (record { policy = some policy; sac_passthrough = false })
      → r.binding token ≡ some b
      → (length (parties op) == length accounts) ≡ true
      → ((e' : Env) × (evaluate token op accounts e ≡ done e' allow))
        ↔ All (MayPass r.frozen token blocked) (zip (parties op) accounts)
  sample_allow_iff r token op accounts policy blocked stored b e shown runs configured bound right =
      let ps = zip (parties op) accounts in
      let own : ComplianceConfig Address = record {
        policy = some policy;
        sac_passthrough = false;
      } in
      let (to, from) = allow_iff r token op accounts e shown in
      let (split, join) =
        All-both (Thawed r.frozen token) (Unblocked policy blocked stored r.outside runs) ps in
      (
        λ ran.
            let (c, b', found, _, _, granted) = to ran in
            let same_config : c ≡ own = cc (found, configured) in
            let asked_own =
              subst (λ x. AllTrue (questions_of token x b'.sac ps) r.outside) same_config
                granted.1 in
            join (
              granted.0,
              (AllTrue-iff policy blocked stored r.outside runs token b'.sac ps r.outside now).0
                  asked_own,
            ),
        λ free.
            let (thawed, unblocked) = split free in
            from (
              own,
              b,
              configured,
              bound,
              right,
              (
                thawed,
                (AllTrue-iff policy blocked stored r.outside runs token b.sac ps r.outside now).1
                    unblocked,
              ),
            ),
      )
