-- ===== src/Cli/Decimal/RoundTrip.antt =====
-- The digits of a number read back as the number.
use Prim.Native.Nat.{◌/◌, ◌%◌}
use Prim.Native.Char.{Char, code}
use Prim.Native.String.append
use Prim.Native.String.{◌++◌ as ◌<>◌}
use safeguard_hooks.Prelude.{
  ℕ, zero, suc, ◌+◌, ◌*◌, ◌-◌, ◌≤◌, ◌<◌, String, ◌≡◌, refl, Bool, true, false, Option, none, some,
  ltb, if◌then◌else◌, arith, Bool-cases, inl, inr, subst, ap, ◌∙◌, u32_max,
}
use safeguard_hooks.Cli.Text.{is_ascii_digit, read_u32, take_while, is_empty, all_chars}
use safeguard_hooks.Cli.Decimal.{digit, digits, display}

abbrev UpTo : (ℕ → Type 0) → ℕ → Type 0
UpTo P zero = Unit
UpTo P (suc k) = UpTo P k × P k

below : (P : ℕ → Type 0) (k n : ℕ) → n < k → UpTo P k → P n
below P zero n h all = absurd (omega arith)
below P (suc k) n h all = elim (Bool-cases (ltb n k)) [
  | inl lt ↦ below P k n (ground arith) all.0
  | inr ge ↦ let last : k ≡ n = ground arith in subst P last all.1
]

code-digit : (n : ℕ) → n < 10 → code (digit n) ≡ 48 + n
unfolding digit
code-digit n h =
    below (λ n. code (digit n) ≡ 48 + n) 10 n h
      (((((((((((tt, refl), refl), refl), refl), refl), refl), refl), refl), refl), refl))

digit-is_ascii_digit : (n : ℕ) → n < 10 → is_ascii_digit (digit n) ≡ true
digit-is_ascii_digit n h = rw (code-digit n h) (ground arith)

abbrev pub bounded : ℕ → Option ℕ → Option ℕ
bounded m rest = if ltb u32_max m then none else rest

-- Reading one digit more.
read_u32-digit :
    (n acc : ℕ) (s : String)
    → n < 10
    → read_u32 acc (String.◌∷◌ (digit n) s) ≡ bounded (acc * 10 + n) (read_u32 (acc * 10 + n) s)
read_u32-digit n acc s h =
    let same_sum : acc * 10 + (48 + n - 48) ≡ acc * 10 + n = omega arith in
    rw (code-digit n h, same_sum) refl

bounded_tenth :
    (n : ℕ) (x : Option ℕ) → bounded (n / 10) (bounded (n / 10 * 10 + n % 10) x) ≡ bounded n x
bounded_tenth n x = ground arith

-- The digits of a number, read, are the number, unless it overflows.
read_u32-digits :
    (fuel n : ℕ) (out : String)
    → n ≤ fuel
    → read_u32 0 (digits fuel n out) ≡ bounded n (read_u32 n out)
unfolding digits
read_u32-digits zero n out h =
    let none_left : n ≡ 0 = omega arith in rw none_left (read_u32-digit 0 0 out (omega arith))
read_u32-digits (suc fuel) n out h = elim (Bool-cases (ltb n 10)) [
  | inl small ↦
      rw (small, digits)
        (read_u32-digit n 0 out (ground arith)
          ∙ ap (λ k. bounded k (read_u32 k out)) (let sum : 0 * 10 + n ≡ n = omega arith in sum))
  | inr large ↦
      let sum : n / 10 * 10 + n % 10 ≡ n = omega arith in
      rw (large, digits)
        (read_u32-digits fuel (n / 10) (String.◌∷◌ (digit (n % 10)) out) (ground arith)
          ∙ ap (bounded (n / 10)) (read_u32-digit (n % 10) (n / 10) out (omega arith))
          ∙ bounded_tenth n (read_u32 (n / 10 * 10 + n % 10) out)
          ∙ ap (λ k. bounded n (read_u32 k out)) sum)
]

take_while-digits :
    (fuel n : ℕ) (out : String)
    → n ≤ fuel
    → take_while is_ascii_digit (digits fuel n out) ≡ digits fuel n (take_while is_ascii_digit out)
unfolding digits
take_while-digits zero n out h = let none_left : n ≡ 0 = omega arith in rw none_left refl
take_while-digits (suc fuel) n out h = elim (Bool-cases (ltb n 10)) [
  | inl small ↦ rw (small, digits, digit-is_ascii_digit n (ground arith)) refl
  | inr large ↦
      rw (large, digits)
        (take_while-digits fuel (n / 10) (String.◌∷◌ (digit (n % 10)) out) (ground arith)
          ∙ ap (digits fuel (n / 10)) (rw (digit-is_ascii_digit (n % 10) (omega arith)) refl))
]

digits-is_empty : (fuel n : ℕ) (out : String) → is_empty (digits fuel n out) ≡ false
unfolding digits
digits-is_empty zero n out = refl
digits-is_empty (suc fuel) n out = elim (Bool-cases (ltb n 10)) [
  | inl small ↦ rw (small, digits) refl
  | inr large ↦ rw (large, digits) (digits-is_empty fuel (n / 10) (String.◌∷◌ (digit (n % 10)) out))
]

all_chars-digits :
    (fuel n : ℕ) (out : String) (p : Char → Bool)
    → ((c : Char) → is_ascii_digit c ≡ true → p c ≡ true)
    → n ≤ fuel
    → all_chars p out ≡ true
    → all_chars p (digits fuel n out) ≡ true
unfolding digits
all_chars-digits zero n out p each h o =
    let none_left : n ≡ 0 = omega arith in
    rw (none_left, each (digit 0) (digit-is_ascii_digit 0 (omega arith))) o
all_chars-digits (suc fuel) n out p each h o = elim (Bool-cases (ltb n 10)) [
  | inl small ↦ rw (small, digits, each (digit n) (digit-is_ascii_digit n (ground arith))) o
  | inr large ↦
      rw (large, digits)
        (all_chars-digits fuel (n / 10) (String.◌∷◌ (digit (n % 10)) out) p each (ground arith)
          (rw (each (digit (n % 10)) (digit-is_ascii_digit (n % 10) (omega arith))) o))
]

digits-append :
    (fuel n : ℕ) (out more : String) → digits fuel n out <> more ≡ digits fuel n (out <> more)
unfolding digits
digits-append zero n out more = append.cons _ out more
digits-append (suc fuel) n out more = elim (Bool-cases (ltb n 10)) [
  | inl small ↦ rw (small, digits) (append.cons _ out more)
  | inr large ↦
      rw (large, digits)
        (digits-append fuel (n / 10) (String.◌∷◌ (digit (n % 10)) out) more
          ∙ ap (digits fuel (n / 10)) (append.cons (digit (n % 10)) out more))
]

module _ (n : ℕ) where
  -- The digits in front of another character.
  pub take_while-display :
      (c : Char) (more : String)
      → is_ascii_digit c ≡ false
      → take_while is_ascii_digit (display n <> String.◌∷◌ c more) ≡ display n
  unfolding display
  take_while-display c more h =
      ap (take_while is_ascii_digit) (
        digits-append n n "" (String.◌∷◌ c more) ∙ ap (digits n n) (append.nil (String.◌∷◌ c more)))
      ∙ take_while-digits n n (String.◌∷◌ c more) (omega arith)
      ∙ ap (digits n n) (rw h refl)

  pub display-is_empty : is_empty (display n) ≡ false
  unfolding display
  display-is_empty = digits-is_empty n n ""

  pub read_u32-display : read_u32 0 (display n) ≡ bounded n (some n)
  unfolding display
  read_u32-display = read_u32-digits n n "" (omega arith)

  pub all_chars-display :
      (p : Char → Bool)
      → ((c : Char) → is_ascii_digit c ≡ true → p c ≡ true)
      → all_chars p (display n) ≡ true
  unfolding display
  all_chars-display p h = all_chars-digits n n "" p h (omega arith) refl
