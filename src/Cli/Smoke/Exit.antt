-- ===== src/Cli/Smoke/Exit.antt =====
-- When the `verify` command succeeds, and when it runs nothing.
use safeguard_hooks.Prelude.{
  ℕ, String, ◌≡◌, ◌≢◌, refl, ap, sym, ◌∙◌, Bool, true, false, not, Option, List, [], ◌∷◌, Result,
  ok, err, unwrap_or, ◌==◌, if◌then◌else◌, All, suc, arith,
}
use safeguard_hooks.Cli.Arguments.{is_stellar_address}
use safeguard_hooks.Cli.Outcome.{RunOutcome}
use safeguard_hooks.Cli.Step.{Step, fail, bind_ok}
use safeguard_hooks.Cli.Config.{Config}
use safeguard_hooks.Cli.Deploy.{ensure_network}
use safeguard_hooks.Cli.Checks.{Check, Status}
use safeguard_hooks.Cli.Verify.{verify}
use safeguard_hooks.Cli.Smoke.{is_fail, failures, valid, verdict, print_report, run_verify}

abbrev pub Unfailed : Check → Type 0
Unfailed c = c.status ≢ Status.fail

unfailed : (s : Status) → is_fail s ≡ false → s ≢ Status.fail
unfailed Status.pass h = λ p. cc
unfailed Status.skip h = λ p. cc
unfailed Status.fail h = cc

nonzero : (n : ℕ) → (suc n == 0) ≡ false
nonzero n = ground arith

clash : true ≢ false
clash p = cc

no_failures : (cs : List Check) → (failures cs == 0) ≡ true → All Unfailed cs
no_failures [] h = tt
no_failures (c ∷ cs) h = by_status (is_fail c.status) refl h (no_failures cs)
  where
    by_status :
        (b : Bool)
        → is_fail c.status ≡ b
        → ((if b then suc (failures cs) else failures cs) == 0) ≡ true
        → ((failures cs == 0) ≡ true → All Unfailed cs)
        → All Unfailed (c ∷ cs)
    by_status true e h rest = absurd (clash (sym h ∙ nonzero (failures cs)))
    by_status false e h rest = (unfailed c.status e, rest h)

module _ (debug : String → String) (json_policy : String → Option String) {S : Type 0}
    (run : List String → S → Result String RunOutcome × S) (print : String → S → S)
    (config : Config) where
  guard_ok :
      {S' : Type 0} (b : Bool) (why : String) (m : Step S' (Unit {0})) (s s' : S')
      → (if not b then fail why else m) s ≡ (ok tt, s')
      → (b ≡ true) × (m s ≡ (ok tt, s'))
  guard_ok true why m s s' h = (refl, h)
  guard_ok false why m s s' h = cc

  verdict_ok :
      (cs : List Check)
      → verdict debug json_policy run print config cs ≡ ok tt
      → (failures cs == 0) ≡ true
  verdict_ok cs = by_count (failures cs == 0) _
    where
      by_count :
          (b : Bool) (why : String)
          → ◌≡◌ {A = Result String (Unit {0})} (if b then ok tt else err why) (ok tt)
          → b ≡ true
      by_count true why h = refl
      by_count false why h = cc

  -- The `verify` command succeeds only if the source and the sampled account are addresses, the
  -- network is registered, and the report that it prints has no failed check.
  pub run_verify_lem :
      (source_account account : Option String) (s s' : S)
      → run_verify debug json_policy run print config source_account account s ≡ (ok tt, s')
      → let source = unwrap_or source_account config.admin.public_key in
        (is_stellar_address source ≡ true)
        × (valid account ≡ true)
        × (t : S) × (ensure_network run config s ≡ (ok tt, t))
        × (let (checks, u) = verify debug json_policy run config source account t in
            All Unfailed checks × (s' ≡ print_report print checks config source u))
  unfolding run_verify
  run_verify_lem source_account account s s' h =
      let (good, h1) = guard_ok _ _ _ s s' h in
      let (sampled, h2) = guard_ok (valid account) _ _ s s' h1 in
      let (_, t, registered, h3) = bind_ok (ensure_network run config) _ s tt s' h2 in
      let source = unwrap_or source_account config.admin.public_key in
      let checks = (verify debug json_policy run config source account t).0 in
      (
        good,
        sampled,
        t,
        registered,
        (no_failures checks (verdict_ok checks (ap (λ x. x.0) h3)), sym (ap (λ x. x.1) h3)),
      )
