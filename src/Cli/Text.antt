-- ===== src/Cli/Text.antt =====
-- What cli/src uses of Rust's `str`: lines, trimming, digits.
pub mod Search
pub mod Lines
use Prim.Native.Char.{Char, code}
use safeguard_hooks.Prelude.{
  ℕ, ◌+◌, ◌-◌, ◌*◌, String, Bool, true, false, not, ◌&&◌, ◌||◌, Option, none, some, List, [], ◌∷◌,
  ltb, ◌==◌, u32_max, if◌then◌else◌, find, map,
}

abbrev pub between : ℕ → ℕ → ℕ → Bool
between low high n = not (ltb n low) && not (ltb high n)

-- `char::is_whitespace`
abbrev pub is_whitespace : Char → Bool
is_whitespace c =
    let n = code c in
    between 9 13 n
    || n == 32
    || n == 133
    || n == 160
    || n == 5760
    || between 8192 8202 n
    || n == 8232
    || n == 8233
    || n == 8239
    || n == 8287
    || n == 12288

abbrev pub is_ascii_digit : Char → Bool
is_ascii_digit c = between 48 57 (code c)

abbrev pub is_ascii_uppercase : Char → Bool
is_ascii_uppercase c = between 65 90 (code c)

abbrev pub is_empty : String → Bool
is_empty String.[] = true
is_empty (String.◌∷◌ c s) = false

-- `chars().all(p)`
abbrev pub all_chars : (Char → Bool) → String → Bool
all_chars p String.[] = true
all_chars p (String.◌∷◌ c s) = p c && all_chars p s

-- `chars().take_while(p).collect()`
abbrev pub take_while : (Char → Bool) → String → String
take_while p String.[] = String.[]
take_while p (String.◌∷◌ c s) =
    let rest = take_while p s in if p c then String.◌∷◌ c rest else String.[]

abbrev pub trim_start : String → String
trim_start String.[] = String.[]
trim_start (String.◌∷◌ c s) =
    let rest = trim_start s in if is_whitespace c then rest else String.◌∷◌ c s

abbrev pub trim_end : String → String
trim_end String.[] = String.[]
trim_end (String.◌∷◌ c s) =
    let rest = trim_end s in
    if is_empty rest && is_whitespace c then String.[] else String.◌∷◌ c rest

-- `str::trim`
abbrev pub trim : String → String
trim s = trim_start (trim_end s)

abbrev starts_line_feed : String → Bool
starts_line_feed String.[] = false
starts_line_feed (String.◌∷◌ c s) = code c == 10

abbrev onto_first : Char → List String → List String
onto_first c [] = String.◌∷◌ c String.[] ∷ []
onto_first c (l ∷ ls) = String.◌∷◌ c l ∷ ls

-- `str::lines`: a line ends at a line feed, with the carriage return before it, if there is one.
unfoldable pub lines : String → List String
lines String.[] = []
lines (String.◌∷◌ c s) =
    let rest = lines s in
    if code c == 10
    then String.[] ∷ rest
    else if code c == 13 && starts_line_feed s
    then rest
    else onto_first c rest

abbrev pub after_first : List String → List String → List String
after_first [] acc = acc
after_first (l ∷ ls) acc = after_first ls (l ∷ acc)

-- `lines().map(str::trim).rev()`
unfoldable pub last_lines : String → List String
unfolding lines
last_lines s = after_first (map trim (lines s)) []

-- `lines().map(str::trim).rev().find(|l| !l.is_empty())`
unfoldable pub last_nonempty : String → Option String
unfolding last_lines
last_nonempty s = find (λ l. not (is_empty l)) (last_lines s)

-- The text after a prefix, and after the first place where a text stands.
abbrev pub strip_prefix : String → String → Option String
strip_prefix String.[] s = some s
strip_prefix (String.◌∷◌ c t) String.[] = none
strip_prefix (String.◌∷◌ c t) (String.◌∷◌ d s) =
    let rest = strip_prefix t s in if code c == code d then rest else none

unfoldable pub after : String → String → Option String
after t String.[] = strip_prefix t String.[]
after t (String.◌∷◌ c s) =
    let later = after t s in
    elim (strip_prefix t (String.◌∷◌ c s)) [ none ↦ later | some rest ↦ some rest ]

-- `parse::<u32>()` of a text of digits, from the number read so far.
abbrev pub read_u32 : ℕ → String → Option ℕ
read_u32 n String.[] = some n
read_u32 n (String.◌∷◌ c s) =
    let m = n * 10 + (code c - 48) in
    let rest = read_u32 m s in if ltb u32_max m then none else rest
