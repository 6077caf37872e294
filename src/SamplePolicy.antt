-- ===== src/SamplePolicy.antt =====
-- contracts/sample-policy/src/lib.rs: a policy with one blocked account.
pub mod Gate
pub mod Launch
use safeguard_hooks.Prelude.{
  ◌≡◌, ◌↔◌, refl, sym, ap, Bool, true, false, not, Option, none, some, option_eq, same, same_self,
  same_sound,
}

module _ {A : Type 0} (d : Discrete A) where
  -- The instance storage, which the constructor sets; `unwrap` panics where it has not.
  abbrev pub Stored : Type 0
  Stored = Option (Option A)

  unfoldable pub constructor : Option A → Stored → Stored
  constructor blocked stored = some blocked

  unfoldable pub is_authorized : Stored → (account token : A) → Option Bool
  is_authorized none account token = none
  is_authorized (some blocked) account token =
      some (not (option_eq (same d) (some account) blocked))

  -- A deployed sample policy answers every question, and denies exactly the account that it was
  -- deployed with, on every token.
  pub denies_iff :
      (blocked : Option A) (stored : Stored) (account token : A)
      → (answer : Bool) × (is_authorized (constructor blocked stored) account token ≡ some answer)
        × ((answer ≡ false) ↔ (blocked ≡ some account))
  unfolding is_authorized constructor
  denies_iff none stored account token = (true, refl, (λ h. cc, λ h. cc))
  denies_iff (some b) stored account token =
      (not (same d account b), refl, by_test (same d account b) refl)
    where
      by_test : (t : Bool) → same d account b ≡ t → (not t ≡ false) ↔ (some b ≡ some account)
      by_test true e = (λ _. ap some (sym (same_sound d account b e)), λ _. refl)
      by_test false e = (
        λ h. cc,
        λ h.
            let same_one : b ≡ account = cc in
            cc (e, same_self d account, ap (same d account) same_one),
      )
