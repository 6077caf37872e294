-- ===== src/Cli/Text/Lines.antt =====
-- `str::lines` of a text that is put together from lines.
use Prim.Native.Char.{Char, char, code}
use Prim.Native.String.append
use Prim.Native.String.{◌++◌ as ◌<>◌}
use text.Mathlib.TextLemmas.{append-nil, append_assoc}
use safeguard_hooks.Prelude.{
  String, ◌≡◌, refl, ap, ◌∙◌, Bool, true, false, not, ◌||◌, List, [], ◌∷◌, ◌++◌, All, ◌==◌, arith,
}
use safeguard_hooks.Cli.Text.{lines, is_empty, all_chars, onto_first}

-- A character inside a line.
abbrev pub inline : Char → Bool
inline c = not (code c == 10 || code c == 13)

-- A text in front of the first line.
abbrev pub onto : String → List String → List String
onto s [] = s ∷ []
onto s (l ∷ ls) = (s <> l) ∷ ls

-- Each line with its line feed.
unfoldable pub unlines : List String → String
unlines [] = ""
unlines (l ∷ ls) = l <> "\n" <> unlines ls

onto_one : (c : Char) (ls : List String) → onto_first c ls ≡ onto (String.◌∷◌ c String.[]) ls
onto_one c [] = refl
onto_one c (l ∷ ls) = rw (append.cons c String.[] l, append.nil l) refl

lines-inline :
    (c : Char) (s : String)
    → inline c ≡ true
    → lines (String.◌∷◌ c s) ≡ onto (String.◌∷◌ c String.[]) (lines s)
unfolding lines
lines-inline c s h = ground (arith, onto_one c (lines s))

onto-onto :
    (c : Char) (s : String) (ls : List String)
    → onto (String.◌∷◌ c String.[]) (onto s ls) ≡ onto (String.◌∷◌ c s) ls
onto-onto c s [] = ap (λ x. x ∷ []) (append.cons c String.[] s ∙ ap (String.◌∷◌ c) (append.nil s))
onto-onto c s (l ∷ ls) =
    rw (append.cons c s l, append.cons c String.[] (s <> l), append.nil (s <> l)) refl

all_cons :
    (p : Char → Bool) (c : Char) (s : String)
    → all_chars p (String.◌∷◌ c s) ≡ true
    → (p c ≡ true) × (all_chars p s ≡ true)
all_cons p c s h = ground arith

lines-append :
    (c : Char) (s t : String)
    → all_chars inline (String.◌∷◌ c s) ≡ true
    → lines (String.◌∷◌ c s <> t) ≡ onto (String.◌∷◌ c s) (lines t)
lines-append c String.[] t h =
    rw (append.cons c String.[] t, append.nil t)
      (lines-inline c t (all_cons inline c String.[] h).0)
lines-append c (String.◌∷◌ d s) t h =
    let (first, later) = all_cons inline c (String.◌∷◌ d s) h in
    ap lines (append.cons c (String.◌∷◌ d s) t)
    ∙ lines-inline c _ first
    ∙ ap (onto (String.◌∷◌ c String.[])) (lines-append d s t later)
    ∙ onto-onto c (String.◌∷◌ d s) (lines t)

pub lines-append_nonempty :
    (s t : String)
    → is_empty s ≡ false
    → all_chars inline s ≡ true
    → lines (s <> t) ≡ onto s (lines t)
lines-append_nonempty String.[] t e h = cc
lines-append_nonempty (String.◌∷◌ c s) t e h = lines-append c s t h

pub all_chars-append :
    (p : Char → Bool) (s t : String)
    → all_chars p s ≡ true
    → all_chars p t ≡ true
    → all_chars p (s <> t) ≡ true
all_chars-append p String.[] t h k = rw (append.nil t) k
all_chars-append p (String.◌∷◌ c s) t h k =
    rw (append.cons c s t, (all_cons p c s h).0) (all_chars-append p s t (all_cons p c s h).1 k)

pub is_empty-append : (s t : String) → is_empty t ≡ false → is_empty (s <> t) ≡ false
is_empty-append String.[] t h = rw (append.nil t) h
is_empty-append (String.◌∷◌ c s) t h = rw (append.cons c s t) refl

line_feed : (t : String) → lines ("\n" <> t) ≡ "" ∷ lines t
unfolding lines
line_feed t = rw (append.cons (char 10 tt) String.[] t, append.nil t) refl

pub lines_feed : (s t : String) → all_chars inline s ≡ true → lines (s <> "\n" <> t) ≡ s ∷ lines t
lines_feed String.[] t h = rw (append.nil ("\n" <> t)) (line_feed t)
lines_feed (String.◌∷◌ c s) t h =
    lines-append c s _ h
    ∙ ap (onto (String.◌∷◌ c s)) (line_feed t)
    ∙ ap (λ x. x ∷ lines t) (append-nil (String.◌∷◌ c s))

pub lines-unlines :
    (ls : List String) (t : String)
    → All (λ l. all_chars inline l ≡ true) ls
    → lines (unlines ls <> t) ≡ ls ++ lines t
unfolding unlines
lines-unlines [] t h = rw (append.nil t) refl
lines-unlines (l ∷ ls) t h =
    ap lines (append_assoc l _ t ∙ ap (λ x. l <> x) (append_assoc "\n" (unlines ls) t))
    ∙ lines_feed l _ h.0
    ∙ ap (λ x. l ∷ x) (lines-unlines ls t h.1)
