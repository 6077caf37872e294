-- ===== src/Cli/Revert/RoundTrip.antt =====
-- The decoder of cli/src/stellar.rs reads the code of a contract error back from what is printed.
use Prim.Native.Char.{Char, char}
use Prim.Native.String.append
use Prim.Native.String.{◌++◌ as ◌<>◌}
use text.Mathlib.TextLemmas.{append-nil, append_assoc}
use safeguard_hooks.Prelude.{
  ℕ, String, ◌≡◌, refl, sym, ap, ◌∙◌, true, false, Option, none, some, List, [], ◌∷◌, ◌++◌, All,
  ltb, u32_max, if◌then◌else◌, arith,
}
use safeguard_hooks.ComplianceHooks.{ContractError, error_code}
use safeguard_hooks.Cli.Decimal.{display}
use safeguard_hooks.Cli.Decimal.RoundTrip.{
  read_u32-display, take_while-display, display-is_empty, all_chars-display,
}
use safeguard_hooks.Cli.Text.{lines, after, all_chars, take_while, is_ascii_digit, is_empty}
use safeguard_hooks.Cli.Text.Search.{after-first}
use safeguard_hooks.Cli.Text.Lines.{
  inline, onto, unlines, lines-append_nonempty, lines-unlines, all_chars-append, is_empty-append,
}
use safeguard_hooks.Cli.Revert.{
  ContractRevert, from_code, marker, decode_lines, decode_contract_error,
}
use safeguard_hooks.Cli.Revert.Meaning.{meaning, from_code_lem}

-- All of the marker but its last character.
abbrev pub marker_start : String
marker_start = "Error(Contract, "

abbrev pub Unmarked : String → Type 0
Unmarked l = (all_chars inline l ≡ true) × (after marker l ≡ none)

abbrev pub bounded_code : ℕ → Option ContractRevert
bounded_code n = if ltb u32_max n then none else some (from_code n)

module _ (n : ℕ) (more : String) where
  behind : take_while is_ascii_digit (display n <> ")" <> more) ≡ display n
  behind =
      ap (λ s. take_while is_ascii_digit (display n <> s))
        (append.cons (char 41 tt) String.[] more ∙ ap (String.◌∷◌ (char 41 tt)) (append.nil more))
      ∙ take_while-display n (char 41 tt) more refl

  decode_marked :
      (l : String) (ls : List String)
      → after marker l ≡ some (display n <> ")" <> more)
      → decode_lines (l ∷ ls) ≡ bounded_code n
  unfolding decode_lines
  decode_marked l ls h =
      rw (h, decode_lines) (rw (behind, display-is_empty n, read_u32-display n) (ground arith))

skip_earlier :
    (earlier later : List String)
    → All Unmarked earlier
    → decode_lines (earlier ++ later) ≡ decode_lines later
unfolding decode_lines
skip_earlier [] later h = refl
skip_earlier (l ∷ ls) later h = rw (h.0.1, decode_lines) (skip_earlier ls later h.1)

-- What is printed of an error with the code `n`: whole lines, and then a line with the marker.
abbrev pub error_text : (earlier : List String) (front : String) (n : ℕ) (more : String) → String
error_text earlier front n more = unlines earlier <> (front <> marker <> display n <> ")") <> more

digit-inline : (c : Char) → is_ascii_digit c ≡ true → inline c ≡ true
digit-inline c h = ground arith

module _ (front : String) (n : ℕ) where
  abbrev through : String
  through = front <> marker <> display n <> ")"

  marked :
      (l : String)
      → after marker (front <> marker_start) ≡ none
      → after marker (through <> l) ≡ some (display n <> ")" <> l)
  marked l h =
      ap (after marker) (
        append_assoc front _ l
        ∙ ap (λ s. front <> s)
            (append_assoc marker _ l ∙ ap (λ s. marker <> s) (append_assoc (display n) ")" l)))
      ∙ after-first marker_start (char 35 tt) front (display n <> ")" <> l) h

  through_one_line : all_chars inline front ≡ true → all_chars inline through ≡ true
  through_one_line h = all_chars-append inline front (marker <> display n <> ")") h (
      all_chars-append inline marker (display n <> ")") refl
        (all_chars-append inline (display n) ")" (all_chars-display n inline digit-inline) refl))

  decode_line :
      (ls : List String)
      → after marker (front <> marker_start) ≡ none
      → decode_lines (onto through ls) ≡ bounded_code n
  decode_line [] h =
      ap (λ l. decode_lines (l ∷ [])) (sym (append-nil through))
      ∙ decode_marked n "" _ [] (marked "" h)
  decode_line (l ∷ ls) h = decode_marked n l _ ls (marked l h)

  nonempty : is_empty through ≡ false
  nonempty =
      is_empty-append front _
        (rw (append.cons (char 69 tt) "rror(Contract, #" (display n <> ")")) refl)

-- Whatever is printed before and behind, the first marker of a contract error is decoded to the
-- error of its code, and to nothing if the code is no u32: the text of an error is one that no
-- earlier line and nothing earlier on its line has the marker.
pub decode-error_text :
    (earlier : List String) (front : String) (n : ℕ) (more : String)
    → All Unmarked earlier
    → all_chars inline front ≡ true
    → after marker (front <> marker_start) ≡ none
    → decode_contract_error (error_text earlier front n more) ≡ bounded_code n
unfolding decode_contract_error
decode-error_text earlier front n more unmarked h k =
    ap decode_lines (
      lines-unlines earlier _ (inlined earlier unmarked)
      ∙ ap (λ ls. earlier ++ ls)
          (lines-append_nonempty _ more (nonempty front n) (through_one_line front n h)))
    ∙ skip_earlier earlier _ unmarked
    ∙ decode_line front n (lines more) k
  where
    inlined : (ls : List String) → All Unmarked ls → All (λ l. all_chars inline l ≡ true) ls
    inlined [] h = tt
    inlined (l ∷ ls) h = (h.0.0, inlined ls h.1)

error_code_fits : (x : ContractError) → ltb u32_max (error_code x) ≡ false
unfolding error_code
error_code_fits x = ground arith

-- Each error that the contract returns is read back from its code in any such text, with its own
-- meaning.
pub decode-error_code :
    (x : ContractError) (earlier : List String) (front more : String)
    → All Unmarked earlier
    → all_chars inline front ≡ true
    → after marker (front <> marker_start) ≡ none
    → decode_contract_error (error_text earlier front (error_code x) more) ≡ some (meaning x)
decode-error_code x earlier front more unmarked h k =
    decode-error_text earlier front (error_code x) more unmarked h k
    ∙ rw (error_code_fits x, from_code_lem.0 x) refl
