-- ===== src/Cli/Outcome/Reports.antt =====
-- cli/src/main.rs: a refusal of the contract and a run that failed are told apart.
use safeguard_hooks.Prelude.{
  String, ◌≡◌, ◌↔◌, refl, Bool, true, false, Option, none, some, List, Result, ok, err,
  if◌then◌else◌,
}
use safeguard_hooks.Cli.Arguments.{view_args}
use safeguard_hooks.Cli.Revert.{ContractRevert, decode_contract_error}
use safeguard_hooks.Cli.Outcome.{
  RunOutcome, combined, GateOutcome, allowed, denied, gated, judged, gate, settle,
}

module _ {S : Type 0} (run : List String → S → Result String RunOutcome × S)
    (source_account contract_id network func : String) (params : List (String × String))
    (s : S) where
  abbrev ran : Result String RunOutcome
  ran = (run (view_args source_account contract_id network func params) s).0

  abbrev reported : Result String GateOutcome
  reported = (gate run source_account contract_id network func params s).0

  -- What is reported of a run that ended.
  abbrev report : RunOutcome → Result String GateOutcome
  report r = judged run r

  abbrev answer : Result String RunOutcome → Result String GateOutcome
  answer (ok r) = report r
  answer (err why) = err why

  answered : (x : Result String RunOutcome × S) → (settle run report x).0 ≡ answer x.0
  answered (ok r, s') = refl
  answered (err why, s') = refl

  denial :
      (r : RunOutcome) (revert : ContractRevert) (well : Bool) (o : Option ContractRevert)
      (tail : Option String)
      → (◌≡◌ {A = Result String GateOutcome}
          (if well then ok allowed else gated run o tail)
          (ok (denied revert)))
        ↔ ((well ≡ false) × (o ≡ some revert))
  denial r revert true o tail = (λ h. cc, λ h. cc (h.0))
  denial r revert false none tail = (λ h. cc, λ h. cc (h.1))
  denial r revert false (some x) tail = (λ h. (refl, cc), λ h. cc (h.1))

  allowance :
      (well : Bool) (o : Option ContractRevert) (tail : Option String)
      → (◌≡◌ {A = Result String GateOutcome}
          (if well then ok allowed else gated run o tail)
          (ok allowed))
        ↔ (well ≡ true)
  allowance true o tail = (λ h. refl, λ h. refl)
  allowance false none tail = (λ h. cc, λ h. cc)
  allowance false (some x) tail = (λ h. cc, λ h. cc)

  answer_iff :
      (x : Result String RunOutcome) (revert : ContractRevert)
      → ((answer x ≡ ok (denied revert)) ↔ (
          (r : RunOutcome) × (x ≡ ok r)
          × (r.ok ≡ false)
          × (decode_contract_error (combined r) ≡ some revert)))
        × ((answer x ≡ ok allowed) ↔ ((r : RunOutcome) × (x ≡ ok r) × (r.ok ≡ true)))
  answer_iff (err why) revert = ((λ h. cc, λ (r, p, q, d). cc (p)), (λ h. cc, λ (r, p, q). cc (p)))
  answer_iff (ok r) revert = (
    (
      λ h. let (failed, decoded) = (denial r revert r.ok _ _).0 h in (r, refl, failed, decoded),
      λ (q, p, failed, decoded).
          let same_run : q ≡ r = cc (p) in
          (denial r revert r.ok _ _).1 (rw (← same_run) failed, rw (← same_run) decoded),
    ),
    (
      λ h. (r, refl, (allowance r.ok _ _).0 h),
      λ (q, p, well).
          let same_run : q ≡ r = cc (p) in (allowance r.ok _ _).1 (rw (← same_run) well),
    ),
  )

  -- A simulated gate is reported as a refusal for a reason exactly when the stellar CLI ran, failed,
  -- and printed an error of the contract that decodes to that reason, and as allowing exactly when
  -- it ran and succeeded: a run that failed in another way is reported as neither.
  pub gate_iff :
      (revert : ContractRevert)
      → ((reported ≡ ok (denied revert)) ↔ (
          (r : RunOutcome) × (ran ≡ ok r)
          × (r.ok ≡ false)
          × (decode_contract_error (combined r) ≡ some revert)))
        × ((reported ≡ ok allowed) ↔ ((r : RunOutcome) × (ran ≡ ok r) × (r.ok ≡ true)))
  unfolding gate
  gate_iff revert =
      rw (answered (run (view_args source_account contract_id network func params) s))
        (answer_iff ran revert)
