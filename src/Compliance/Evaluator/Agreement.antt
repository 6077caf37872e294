-- ===== src/Compliance/Evaluator/Agreement.antt =====
-- When the checks of an evaluation allow, and what has then been answered.
use safeguard_hooks.Prelude.{String, ◌≡◌, ◌↔◌, refl, true, false, List, [], ◌∷◌, All, All-map}
use safeguard_hooks.HookCore.Reason.{RejectionReason}
use safeguard_hooks.HookCore.Decision.{ComplianceDecision, allow}
use safeguard_hooks.Host.{Host, Answer, value, malformed, failed}
use safeguard_hooks.Compliance.Evaluator.Questions.{
  Question, AllTrue, Heard, Heard-first, Heard-later,
}
use safeguard_hooks.Compliance.Evaluator.Asking.{asked}
use safeguard_hooks.Compliance.Evaluator.Checks.{Check, refuse_if, ask, heard, judge}

module _ ⦃H : Host⦄ where
  open H use {Address, Outside, answers, after_call}

  abbrev pub Passes : (Address → String → List Address → Type 0) → Check Address → Type 0
  Passes Yes (refuse_if b why) = b ≡ false
  Passes Yes (ask c fn args denied unavailable) = Yes c fn args

  -- The checks of the contract's own state pass.
  abbrev pub Free : Check Address → Type 0
  Free (refuse_if b why) = b ≡ false
  Free (ask c fn args denied unavailable) = Unit

  heard-allow :
      (a : Answer) (x y : RejectionReason) (w : Outside) (p : ComplianceDecision × Outside)
      → ((heard a x y w p).0 ≡ allow) ↔ ((a ≡ value true) × (p.0 ≡ allow))
  heard-allow (value true) x y w p = (λ h. (refl, h), λ h. h.1)
  heard-allow (value false) x y w p = (λ h. cc, λ h. cc (h.0))
  heard-allow malformed x y w p = (λ h. cc, λ h. cc (h.0))
  heard-allow failed x y w p = (λ h. cc, λ h. cc (h.0))

  -- The checks allow exactly when those of the contract's own state pass, and each question is
  -- answered `true` when it comes up.
  pub judge-allow :
      (cs : List (Check Address)) (w : Outside)
      → ((judge cs w).0 ≡ allow) ↔ (All Free cs × AllTrue (asked cs) w)
  unfolding judge AllTrue
  judge-allow [] w = (λ _. (tt, tt), λ _. refl)
  judge-allow (refuse_if true why ∷ cs) w = (λ h. cc, λ h. cc (h.0.0))
  judge-allow (refuse_if false why ∷ cs) w =
      let (to, from) = judge-allow cs w in
      (λ h. let (free, all) = to h in ((refl, free), all), λ h. from (h.0.1, h.1))
  judge-allow (ask c fn args x y ∷ cs) w =
      let (to, from) = judge-allow cs (after_call w c fn args) in
      let (split, join) =
        heard-allow (answers w c fn args) x y (after_call w c fn args)
          (judge cs (after_call w c fn args)) in
      (
        λ h.
            let (yes_said, rest) = split h in
            let (free, all) = to rest in ((tt, free), (yes_said, all)),
        λ h. join (h.1.0, from (h.0.1, h.1.1)),
      )

  -- A question that comes up on the way and is answered `true`.
  abbrev pub Agreed : List (Question Address) → Outside → Address → String → List Address → Type 0
  Agreed qs w c fn args = Heard qs w c fn args (value true)

  All-Agreed :
      (cs : List (Check Address)) (w : Outside)
      → All Free cs
      → AllTrue (asked cs) w
      → All (Passes (Agreed (asked cs) w)) cs
  unfolding AllTrue
  All-Agreed [] w free all = tt
  All-Agreed (refuse_if b why ∷ cs) w free all = (free.0, All-Agreed cs w free.1 all)
  All-Agreed (ask c fn args x y ∷ cs) w free all =
      let q : Question Address = record { contract = c; fn = fn; args = args } in
      (
        Heard-first q (asked cs) w (value true) all.0,
        All-map _ _ (later q cs w all.0) cs (All-Agreed cs (after_call w c fn args) free.1 all.1),
      )
    where
      later :
          (q : Question Address) (ds : List (Check Address)) (v : Outside)
          → answers v q.contract q.fn q.args ≡ value true
          → (x : Check Address) → Passes (Agreed (asked ds) (after_call v q.contract q.fn q.args)) x
          → Passes (Agreed (q ∷ asked ds) v) x
      later q ds v said (refuse_if b why) h = h
      later q ds v said (ask d gn brgs z u) h =
          Heard-later q (asked ds) v d gn brgs (value true) said h

  pub judge-allow-needs :
      (cs : List (Check Address)) (w : Outside)
      → (judge cs w).0 ≡ allow
      → All (Passes (Agreed (asked cs) w)) cs
  judge-allow-needs cs w h = let (free, all) = (judge-allow cs w).0 h in All-Agreed cs w free all
