-- ===== src/Cli/Arguments/DeployedId.antt =====
-- parse_deployed_id of cli/src/stellar.rs: which line of the output is the id of the new contract.
use Prim.Native.Char.{Char, code}
use Prim.Native.String.{◌++◌ as ◌<>◌, len}
use text.Mathlib.TextEquality.{starts_with_iff}
use safeguard_hooks.Prelude.{
  ℕ, ◌≤◌, String, ◌≡◌, ◌↔◌, ◌⊎◌, inl, inr, refl, ap, Bool, true, false, ◌||◌, Bool-cases, and_true,
  some, List, [], ◌∷◌, ◌++◌, map, find, All, All-map, ◌==◌, if◌then◌else◌, arith,
}
use safeguard_hooks.Cli.Text.{
  between, is_ascii_uppercase, is_ascii_digit, all_chars, after_first, lines, trim, last_lines,
}
use safeguard_hooks.Cli.Arguments.{is_contract_id, parse_deployed_id}

-- An upper-case letter or a digit of ASCII.
abbrev pub IsAlnum : Char → Type 0
IsAlnum c = ((65 ≤ code c) × (code c ≤ 90)) ⊎ ((48 ≤ code c) × (code c ≤ 57))

abbrev pub EachAlnum : String → Type 0
EachAlnum String.[] = Unit
EachAlnum (String.◌∷◌ c s) = IsAlnum c × EachAlnum s

-- `C`, and upper-case letters and digits, 56 bytes in all.
abbrev pub IsContractForm : String → Type 0
IsContractForm s = (len s ≡ 56) × ((rest : String) × ("C" <> rest ≡ s)) × EachAlnum s

between_iff : (low high n : ℕ) → (between low high n ≡ true) ↔ ((low ≤ n) × (n ≤ high))
between_iff low high n = (λ h. ground arith, λ h. ground arith)

IsAlnum-iff : (c : Char) → ((is_ascii_uppercase c || is_ascii_digit c) ≡ true) ↔ IsAlnum c
IsAlnum-iff c = by_test (is_ascii_uppercase c) refl
  where
    by_test : (b : Bool) → is_ascii_uppercase c ≡ b → ((b || is_ascii_digit c) ≡ true) ↔ IsAlnum c
    by_test true e = (λ _. inl ((between_iff 65 90 (code c)).0 e), λ _. refl)
    by_test false e = (
      λ h. inr ((between_iff 48 57 (code c)).0 h),
      λ h. elim h [
        | inl upper ↦ let up = (between_iff 65 90 (code c)).1 upper in cc (up, e)
        | inr digit ↦ (between_iff 48 57 (code c)).1 digit
      ],
    )

EachAlnum-iff :
    (s : String)
    → (all_chars (λ c. is_ascii_uppercase c || is_ascii_digit c) s ≡ true) ↔ EachAlnum s
EachAlnum-iff String.[] = (λ _. tt, λ _. refl)
EachAlnum-iff (String.◌∷◌ c s) =
    let (split, join) = and_true (is_ascii_uppercase c || is_ascii_digit c) _ in
    let (to, from) = IsAlnum-iff c in
    let (to_rest, from_rest) = EachAlnum-iff s in
    (λ h. let (p, q) = split h in (to p, to_rest q), λ h. join (from h.0, from_rest h.1))

eq_56 : (n : ℕ) → ((n == 56) ≡ true) ↔ (n ≡ 56)
eq_56 n = (λ h. ground arith, λ h. ground arith)

IsContractForm-iff : (s : String) → (is_contract_id s ≡ true) ↔ IsContractForm s
IsContractForm-iff s =
    let (len_to, len_from) = eq_56 (len s) in
    let (starts_to, starts_from) = starts_with_iff s "C" in
    let (chars_to, chars_from) = EachAlnum-iff s in
    (
      λ h.
          let (p, q) = (and_true _ _).0 h in
          let (p1, p2) = (and_true _ _).0 p in (len_to p1, starts_to p2, chars_to q),
      λ (size, start, chars).
          (and_true _ _).1 ((and_true _ _).1 (len_from size, starts_from start), chars_from chars),
    )

module _ (p : String → Bool) (x : String) where
  -- The last of these that passes the test.
  abbrev LastOf : List String → Type 0
  LastOf xs =
      (before : List String) × (behind : List String) × (xs ≡ before ++ x ∷ behind)
      × (p x ≡ true)
      × All (λ y. p y ≡ false) behind

  abbrev NoneOf : List String → Type 0
  NoneOf xs = All (λ y. p y ≡ false) xs

  -- Searching the reversed list finds the last one, before anything that is behind it.
  find-after_first :
      (ls acc : List String)
      → (find p (after_first ls acc) ≡ some x) ↔ (LastOf ls ⊎ (NoneOf ls × (find p acc ≡ some x)))
  find-after_first [] acc = (
    λ h. inr (tt, h),
    λ h. elim h [
      | inl (before, behind, e, _, _) ↦ absurd (not_split before behind e)
      | inr q ↦ q.1
    ],
  )
    where
      not_split : (before behind : List String) → [] ≡ before ++ x ∷ behind → ⊥
      not_split [] behind e = cc (e)
      not_split (b ∷ before) behind e = cc (e)
  find-after_first (l ∷ ls) acc =
      let (to, from) = find-after_first ls (l ∷ acc) in
      (
        λ h. elim (to h) [
          | inl (before, behind, e, passes, none_behind) ↦
              inl (l ∷ before, behind, ap (λ z. l ∷ z) e, passes, none_behind)
          | inr (none_there, found) ↦ by_head (p l) refl none_there found
        ],
        λ h. elim h [
          | inl q ↦ from (behind_head q)
          | inr (none_there, found) ↦ from (inr (none_there.1, rw (none_there.0) found))
        ],
      )
    where
      by_head :
          (t : Bool)
          → p l ≡ t
          → NoneOf ls
          → (if t then some l else find p acc) ≡ some x
          → LastOf (l ∷ ls) ⊎ (NoneOf (l ∷ ls) × (find p acc ≡ some x))
      by_head true e none_there found =
          let same : l ≡ x = cc (found) in
          inl ([], ls, ap (λ z. z ∷ ls) same, rw (← same) e, none_there)
      by_head false e none_there found = inr ((e, none_there), found)

      behind_head : LastOf (l ∷ ls) → LastOf ls ⊎ (NoneOf ls × (find p (l ∷ acc) ≡ some x))
      behind_head ([], behind, e, passes, none_behind) =
          let same : l ≡ x = cc (e) in
          let same_rest : ls ≡ behind = cc (e) in
          inr (rw same_rest none_behind, rw (same, passes) refl)
      behind_head (b ∷ before, behind, e, passes, none_behind) =
          inl (before, behind, cc (e), passes, none_behind)

-- Of the printed lines, the last that has the form of a contract id.
abbrev pub IsLastId : List String → String → Type 0
IsLastId ls id =
    (before : List String) × (behind : List String) × (ls ≡ before ++ id ∷ behind)
    × IsContractForm id
    × All (λ l. ¬ IsContractForm l) behind

-- A text is taken from the output of a deployment as the id of the contract exactly when it is the
-- last of the output's lines, trimmed, that is a `C` with upper-case letters and digits behind it, 56
-- bytes in all.
pub parse_deployed_id_iff :
    (stdout id : String)
    → (parse_deployed_id stdout ≡ some id) ↔ IsLastId (map trim (lines stdout)) id
unfolding parse_deployed_id last_lines
parse_deployed_id_iff stdout id =
    let (to, from) = find-after_first is_contract_id id (map trim (lines stdout)) [] in
    (
      λ h. elim (to h) [
        | inl (before, behind, e, passes, none_behind) ↦ (
          before,
          behind,
          e,
          (IsContractForm-iff id).0 passes,
          All-map _ _
              (λ l other form. let passing = (IsContractForm-iff l).1 form in cc (other, passing))
              behind none_behind,
        )
        | inr q ↦ cc (q.1)
      ],
      λ (before, behind, e, form, none_behind). from (
          inl (
            before,
            behind,
            e,
            (IsContractForm-iff id).1 form,
            All-map _ _ (λ l other. fails l other) behind none_behind,
          )),
    )
  where
    fails : (l : String) → ¬ IsContractForm l → is_contract_id l ≡ false
    fails l other = elim (Bool-cases (is_contract_id l)) [
      | inl passing ↦ absurd (other ((IsContractForm-iff l).0 passing))
      | inr failing ↦ failing
    ]
