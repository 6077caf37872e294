-- ===== src/Cli/Decimal.antt =====
-- What cli/src uses of Rust's formatting of an unsigned number, `{}` and `{:>2}`.
pub mod RoundTrip
use Prim.Native.Nat.{◌/◌, ◌%◌}
use Prim.Native.Char.{Char, char}
use safeguard_hooks.Prelude.{ℕ, zero, suc, String, true, false, ltb, ◌==◌, if◌then◌else◌}

-- The digit of a number below ten.
unfoldable pub digit : ℕ → Char
digit n =
    if n == 0
    then char 48 tt
    else if n == 1
    then char 49 tt
    else if n == 2
    then char 50 tt
    else if n == 3
    then char 51 tt
    else if n == 4
    then char 52 tt
    else if n == 5
    then char 53 tt
    else if n == 6
    then char 54 tt
    else if n == 7
    then char 55 tt
    else if n == 8
    then char 56 tt
    else char 57 tt

-- The digits of `n`, before those that are already out. Each round divides by ten, so `n` rounds are
-- enough.
unfoldable pub digits : (fuel n : ℕ) → String → String
unfolding digit
digits zero n out = String.◌∷◌ (digit n) out
digits (suc fuel) n out = elim (ltb n 10) [
  | true ↦ String.◌∷◌ (digit n) out
  | false ↦ digits fuel (n / 10) (String.◌∷◌ (digit (n % 10)) out)
]

-- `{}`
unfoldable pub display : ℕ → String
unfolding digits
display n = digits n n String.[]

-- `{:>2}`
unfoldable pub display_two : ℕ → String
unfolding display
display_two n = if ltb n 10 then String.◌∷◌ (char 32 tt) (display n) else display n
