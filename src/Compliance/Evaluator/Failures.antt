-- ===== src/Compliance/Evaluator/Failures.antt =====
-- A denial of the checks of crates/compliance comes from a check that fails.
use mathlib.Core.List.{Memᴰ}
use safeguard_hooks.Prelude.{String, ◌≡◌, ◌⊎◌, inl, inr, refl, true, false, List, [], ◌∷◌}
use safeguard_hooks.HookCore.Reason.{RejectionReason}
use safeguard_hooks.HookCore.Decision.{deny}
use safeguard_hooks.Host.{Host, Answer, value, malformed, failed}
use safeguard_hooks.Compliance.Evaluator.Questions.{Question, Heard, Heard-first, Heard-later}
use safeguard_hooks.Compliance.Evaluator.Asking.{asked}
use safeguard_hooks.Compliance.Evaluator.Checks.{Check, refuse_if, ask, heard, judge}

module _ ⦃H : Host⦄ where
  open H use {Address, Env, Outside, answers, after_call}

  module _ (qs : List (Question Address)) (start : Outside) where
    -- Of these questions, this one comes up, after answers that are all `true`, and is answered
    -- `false`; or is answered by no Boolean.
    abbrev pub Refused : Address → String → List Address → Type 0
    Refused c fn args = Heard qs start c fn args (value false)

    abbrev pub Unanswered : Address → String → List Address → Type 0
    Unanswered c fn args = Heard qs start c fn args malformed ⊎ Heard qs start c fn args failed

    -- The check fails, for this reason.
    abbrev pub Fails : RejectionReason → Check Address → Type 0
    Fails why (refuse_if b y) = (b ≡ true) × (y ≡ why)
    Fails why (ask c fn args y z) =
        (Refused c fn args × (y ≡ why)) ⊎ (Unanswered c fn args × (z ≡ why))

    abbrev pub SomeFails : RejectionReason → List (Check Address) → Type 0
    SomeFails why cs = (x : Check Address) × Memᴰ x cs × Fails why x

  -- What fails behind a question that is answered `true`.
  Fails-later :
      (q : Question Address) (qs : List (Question Address)) (w : Outside) (why : RejectionReason)
      → answers w q.contract q.fn q.args ≡ value true
      → (x : Check Address) → Fails qs (after_call w q.contract q.fn q.args) why x
      → Fails (q ∷ qs) w why x
  Fails-later q qs w why said (refuse_if b y) h = h
  Fails-later q qs w why said (ask c fn args y z) (inl (no_leave, e)) =
      inl (Heard-later q qs w c fn args (value false) said no_leave, e)
  Fails-later q qs w why said (ask c fn args y z) (inr (inl garbled, e)) =
      inr (inl (Heard-later q qs w c fn args malformed said garbled), e)
  Fails-later q qs w why said (ask c fn args y z) (inr (inr silence, e)) =
      inr (inr (Heard-later q qs w c fn args failed said silence), e)

  heard-Fails :
      (cs : List (Check Address)) (w : Outside) (c : Address) (fn : String) (args : List Address)
      (y z why : RejectionReason) (a : Answer)
      → answers w c fn args ≡ a
      → ((judge cs (after_call w c fn args)).0 ≡ deny why
          → SomeFails (asked cs) (after_call w c fn args) why cs)
      → (heard a y z (after_call w c fn args) (judge cs (after_call w c fn args))).0 ≡ deny why
      → SomeFails (asked (ask c fn args y z ∷ cs)) w why (ask c fn args y z ∷ cs)
  heard-Fails cs w c fn args y z why (value true) e rest h =
      let (x, at, fails) = rest h in
      let q : Question Address = record { contract = c; fn = fn; args = args } in
      (x, Memᴰ.tail at, Fails-later q (asked cs) w why e x fails)
  heard-Fails cs w c fn args y z why (value false) e rest h =
      (ask c fn args y z, Memᴰ.head refl, inl (Heard-first _ (asked cs) w (value false) e, cc))
  heard-Fails cs w c fn args y z why malformed e rest h =
      (ask c fn args y z, Memᴰ.head refl, inr (inl (Heard-first _ (asked cs) w malformed e), cc))
  heard-Fails cs w c fn args y z why failed e rest h =
      (ask c fn args y z, Memᴰ.head refl, inr (inr (Heard-first _ (asked cs) w failed e), cc))

  pub judge-Fails :
      (cs : List (Check Address)) (w : Outside) (why : RejectionReason)
      → (judge cs w).0 ≡ deny why
      → SomeFails (asked cs) w why cs
  unfolding judge
  judge-Fails [] w why h = cc
  judge-Fails (refuse_if true y ∷ cs) w why h = (refuse_if true y, Memᴰ.head refl, (refl, cc))
  judge-Fails (refuse_if false y ∷ cs) w why h =
      let (x, at, fails) = judge-Fails cs w why h in (x, Memᴰ.tail at, fails)
  judge-Fails (ask c fn args y z ∷ cs) w why h =
      heard-Fails cs w c fn args y z why _ refl (judge-Fails cs (after_call w c fn args) why) h
