-- ===== src/Prelude.antt =====
-- Names that all parts share: the libraries', passed on, Boolean tests on the native numbers, and
-- Rust's `Result` with its `?`.
pub use Prim.Native.Nat.{ℕ, zero, suc, ◌+◌, ◌-◌, ◌*◌, ◌^◌, ◌≤◌, ◌<◌}
pub use Prim.Native.String.{String}
pub use mathlib.Core.Path.{◌≡◌, refl, sym, ap, ◌∙◌, fun_ext, subst}
pub use mathlib.Core.Logic.{◌≢◌, ◌↔◌, ◌⊎◌, inl, inr}
pub use mathlib.Core.Bool.{Bool, true, false, not, ◌&&◌, ◌||◌}
pub use mathlib.Core.Option.{Option, none, some}
pub use mathlib.Core.List.{List, [], ◌∷◌, ◌++◌, map}
pub use native.Mathlib.Omega.{arith}
unfoldable pub use mathlib.Core.List.{zip, flat_map}
use mathlib.Core.List.{Memᴰ}
use mathlib.Core.List
use Prim.Native.Nat.{compare, Ordering}

abbrev pub ltb : ℕ → ℕ → Bool
ltb a b = elim (compare a b) [ Ordering.lt ↦ true | _ ↦ false ]

infix 50 ◌==◌
abbrev pub ◌==◌ : ℕ → ℕ → Bool
a == b = elim (compare a b) [ Ordering.eq ↦ true | _ ↦ false ]

infix 1 if◌then◌else◌
abbrev pub if◌then◌else◌ {ℓ} : {A : Type ℓ} → Bool → A → A → A
if true then x else y = x
if false then x else y = y

pub Bool-cases : (b : Bool) → (b ≡ true) ⊎ (b ≡ false)
Bool-cases true = inl refl
Bool-cases false = inr refl

pub and_true : (a b : Bool) → ((a && b) ≡ true) ↔ ((a ≡ true) × (b ≡ true))
and_true true b = (λ h. (refl, h), λ h. h.1)
and_true false b = (λ h. cc, λ h. h.0)

-- `2 ^ 32 - 1`, the largest `u32`.
abbrev pub u32_max : ℕ
u32_max = 4294967295

module _ {ℓ} {A : Type ℓ} where
  pub Option-cases : (o : Option A) → (o ≡ none) ⊎ ((a : A) × (o ≡ some a))
  Option-cases none = inl refl
  Option-cases (some a) = inr (a, refl)

  abbrev pub is_some : Option A → Bool
  is_some none = false
  is_some (some a) = true

  pub none_of_is_some : (o : Option A) → is_some o ≡ false → o ≡ none
  none_of_is_some none h = refl
  none_of_is_some (some a) h = cc

  abbrev pub unwrap_or : Option A → A → A
  unwrap_or none d = d
  unwrap_or (some a) d = a

  -- The equality of options, from one of their values.
  abbrev pub option_eq : (A → A → Bool) → Option A → Option A → Bool
  option_eq eq none none = true
  option_eq eq (some a) (some b) = eq a b
  option_eq eq _ _ = false

  abbrev pub length : List A → ℕ
  length [] = 0
  length (x ∷ xs) = suc (length xs)

  pub length-append : (xs ys : List A) → length (xs ++ ys) ≡ length xs + length ys
  length-append [] ys = omega arith
  length-append (x ∷ xs) ys = omega (arith, length-append xs ys)

  -- Rust's `iter().find(p)`.
  abbrev pub find : (A → Bool) → List A → Option A
  find p [] = none
  find p (x ∷ xs) = if p x then some x else find p xs

  -- Whether two values are equal, as a Boolean.
  abbrev pub same : Discrete A → A → A → Bool
  same d a b = elim (d a b) [ yes _ ↦ true | no _ ↦ false ]

  pub same_self : (d : Discrete A) (a : A) → same d a a ≡ true
  same_self d a = elim (d a a) as (λ x. elim x [ yes _ ↦ true | no _ ↦ false ] ≡ true) [
    | yes p ↦ refl
    | no n ↦ absurd (n refl)
  ]

  pub same_sound : (d : Discrete A) (a b : A) → same d a b ≡ true → a ≡ b
  same_sound d a b = elim (d a b) as (λ x. elim x [ yes _ ↦ true | no _ ↦ false ] ≡ true → a ≡ b) [
    | yes p ↦ λ _. p
    | no n ↦ λ h. cc
  ]

  pub same_of_ne : (d : Discrete A) (a b : A) → a ≢ b → same d a b ≡ false
  same_of_ne d a b ne = elim (Bool-cases (same d a b)) [
    | inl h ↦ absurd (ne (same_sound d a b h))
    | inr h ↦ h
  ]

module _ {ℓ κ} {A : Type ℓ} (P : A → Type κ) where
  abbrev pub All : List A → Type κ
  All [] = Unit
  All (x ∷ xs) = P x × All xs

-- Rust's `Result<A, E>`.
pub data Result (E A : Type 0) : Type 0 where
  ok : A → Result E A
  err : E → Result E A

abbrev pub map_err : {E F A : Type 0} → (E → F) → Result E A → Result F A
map_err f (ok a) = ok a
map_err f (err e) = err (f e)

module _ {ℓ κ} {A : Type ℓ} (P : A → Type κ) where
  -- What holds of two lists holds of the one after the other.
  pub All-append : (xs ys : List A) → All P (xs ++ ys) ↔ (All P xs × All P ys)
  All-append [] ys = (λ h. (tt, h), λ h. h.1)
  All-append (x ∷ xs) ys =
      let (split, join) = All-append xs ys in
      (λ h. let (l, r) = split h.1 in ((h.0, l), r), λ h. (h.0.0, join (h.0.1, h.1)))

module _ {ℓ κ} {A : Type ℓ} (P Q : A → Type κ) where
  pub All-map : ((x : A) → P x → Q x) → (xs : List A) → All P xs → All Q xs
  All-map f [] h = tt
  All-map f (x ∷ xs) h = (f x h.0, All-map f xs h.1)

  pub All-both : (xs : List A) → All (λ x. P x × Q x) xs ↔ (All P xs × All Q xs)
  All-both [] = (λ h. (tt, tt), λ h. tt)
  All-both (x ∷ xs) =
      let (split, join) = All-both xs in
      (
        λ h. let (l, r) = split h.1 in ((h.0.0, l), (h.0.1, r)),
        λ h. ((h.0.0, h.1.0), join (h.0.1, h.1.1)),
      )

module _ {ℓ κ} {A B : Type ℓ} (P : B → Type κ) (Q : A → Type κ) (f : A → List B) where
  pub All-flat_map :
      ((a : A) → All P (f a) ↔ Q a) → (xs : List A) → All P (flat_map f xs) ↔ All Q xs
  unfolding flat_map
  All-flat_map each [] = (λ h. h, λ h. h)
  All-flat_map each (x ∷ xs) =
      let (split, join) = All-append P (f x) (flat_map f xs) in
      let (to, from) = All-flat_map each xs in
      let (to_one, from_one) = each x in
      (λ h. let (l, r) = split h in (to_one l, to r), λ h. join (from_one h.0, from h.1))

module _ {A : Type 0} (p : A → Bool) where
  -- What is found is in the list and passes the test.
  pub find_sound : (xs : List A) (x : A) → find p xs ≡ some x → (p x ≡ true) × Memᴰ x xs
  find_sound [] x h = cc
  find_sound (y ∷ xs) x h = by_test (p y) refl h (find_sound xs x)
    where
      by_test :
          (b : Bool)
          → p y ≡ b
          → (if b then some y else find p xs) ≡ some x
          → (find p xs ≡ some x → (p x ≡ true) × Memᴰ x xs)
          → (p x ≡ true) × Memᴰ x (y ∷ xs)
      by_test true e h later =
          let same_one : y ≡ x = cc in (rw (← same_one) e, Memᴰ.head (sym same_one))
      by_test false e h later = let (holds, at) = later h in (holds, Memᴰ.tail at)

  pub find-none : (xs : List A) (x : A) → find p xs ≡ none → Memᴰ x xs → p x ≡ false
  find-none [] x h at = absurd (List.Memᴰ.not-nil at)
  find-none (y ∷ xs) x h at = by_test (p y) refl h (λ later. find-none xs x later)
    where
      by_test :
          (b : Bool)
          → p y ≡ b
          → (if b then some y else find p xs) ≡ none
          → (find p xs ≡ none → Memᴰ x xs → p x ≡ false)
          → p x ≡ false
      by_test true e h later = cc
      by_test false e h later = elim (List.Memᴰ.cases_cons at) [
        | inl same_one ↦ rw same_one e
        | inr there ↦ later h there
      ]
