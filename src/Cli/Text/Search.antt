-- ===== src/Cli/Text/Search.antt =====
-- Where `str::split_once` cuts: at the first place of a marker.
use Prim.Native.Char.{Char}
use Prim.Native.String.append
use Prim.Native.String.{◌++◌ as ◌<>◌}
use text.Mathlib.TextLemmas.{append_assoc}
use safeguard_hooks.Prelude.{ℕ, suc, ◌+◌, ◌≤◌, String, ◌≡◌, refl, sym, ap, ◌∙◌, none, some, arith}
use safeguard_hooks.Cli.Text.{strip_prefix, after}

abbrev chars : String → ℕ
chars String.[] = 0
chars (String.◌∷◌ c s) = suc (chars s)

chars-append : (s t : String) → chars (s <> t) ≡ chars s + chars t
chars-append String.[] t = rw (append.nil t) (omega arith)
chars-append (String.◌∷◌ c s) t = rw (append.cons c s t) (omega (arith, chars-append s t))

strip_prefix-append : (t s : String) → strip_prefix t (t <> s) ≡ some s
strip_prefix-append String.[] s = rw (append.nil s) refl
strip_prefix-append (String.◌∷◌ c t) s =
    rw (append.cons c t s) (ground (arith, strip_prefix-append t s))

-- A prefix that a long enough text does not have, a longer text does not have either.
strip_prefix-none :
    (t s more : String)
    → chars t ≤ chars s
    → strip_prefix t s ≡ none
    → strip_prefix t (s <> more) ≡ none
strip_prefix-none String.[] s more le h = cc
strip_prefix-none (String.◌∷◌ c t) String.[] more le h = absurd (omega arith)
strip_prefix-none (String.◌∷◌ c t) (String.◌∷◌ d s) more le h =
    rw (append.cons d s more) (ground (arith, strip_prefix-none t s more))

after_here : (t s rest : String) → strip_prefix t s ≡ some rest → after t s ≡ some rest
unfolding after
after_here t String.[] rest h = h
after_here t (String.◌∷◌ c s) rest h = rw (h, after) refl

module _ (t : String) (c : Char) (s : String) where
  after-none :
      after t (String.◌∷◌ c s) ≡ none
      → (strip_prefix t (String.◌∷◌ c s) ≡ none) × (after t s ≡ none)
  unfolding after
  after-none h = ground arith

  after_later : strip_prefix t (String.◌∷◌ c s) ≡ none → after t (String.◌∷◌ c s) ≡ after t s
  unfolding after
  after_later h = ground arith

-- A marker is cut at, where it stands, if it does not begin earlier: if the text in front of it with
-- all but its last character does not have it.
pub after-first :
    (start : String) (last : Char) (front rest : String)
    → let marker = start <> String.◌∷◌ last String.[] in
      after marker (front <> start) ≡ none → after marker (front <> marker <> rest) ≡ some rest
after-first start last String.[] rest h =
    rw (append.nil _) (after_here _ _ rest (strip_prefix-append _ rest))
after-first start last (String.◌∷◌ c front) rest h =
    let marker = start <> String.◌∷◌ last String.[] in
    let (not_here, not_later) =
      after-none marker c (front <> start)
        (ap (after marker) (sym (append.cons c front start)) ∙ h) in
    let long : chars marker ≤ chars (String.◌∷◌ c (front <> start)) =
      omega (arith, chars-append start (String.◌∷◌ last String.[]), chars-append front start) in
    let split : String.◌∷◌ c (front <> start) <> String.◌∷◌ last rest
        ≡ String.◌∷◌ c (front <> marker <> rest) =
      rw
        (
          append.cons c (front <> start) (String.◌∷◌ last rest),
          append_assoc front start (String.◌∷◌ last rest),
          append_assoc start (String.◌∷◌ last String.[]) rest,
          append.cons last String.[] rest,
          append.nil rest,
        )
        refl in
    ap (after marker) (append.cons c front (marker <> rest))
    ∙ after_later marker c (front <> marker <> rest) (
        ap (strip_prefix marker) (sym split)
        ∙ strip_prefix-none marker _ (String.◌∷◌ last rest) long not_here)
    ∙ after-first start last front rest not_later
