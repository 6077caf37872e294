-- ===== src/Cli/Step.antt =====
-- Code of cli/src that runs commands on the state `S` of the world, and stops at the first error.
use safeguard_hooks.Prelude.{
  ◌≡◌, ◌⊎◌, inl, inr, refl, ap, String, Option, none, some, List, [], ◌∷◌, Result, ok, err,
}

abbrev pub Step : Type 0 → Type 0 → Type 0
Step S A = S → Result String A × S

module _ {S A : Type 0} where
  abbrev pub return : A → Step S A
  return a s = (ok a, s)

  abbrev pub fail : String → Step S A
  fail why s = (err why, s)

  -- `ok_or_else`
  abbrev pub some_or : String → Option A → Step S A
  some_or why none = fail why
  some_or why (some a) = return a

module _ {S A B : Type 0} where
  abbrev pub follow : (A → Step S B) → Result String A × S → Result String B × S
  follow f (ok a, s) = f a s
  follow f (err why, s) = (err why, s)

  infixl 5 ◌>>=◌
  unfoldable pub ◌>>=◌ : Step S A → (A → Step S B) → Step S B
  ◌>>=◌ m f s = follow f (m s)

infixl 5 ◌>>◌
abbrev pub ◌>>◌ : {S B : Type 0} → Step S (Unit {0}) → Step S B → Step S B
m >> k = m >>= λ _. k

-- `for x in xs { f(x)?; }`
unfoldable pub for_each : {S A : Type 0} → (A → Step S (Unit {0})) → List A → Step S (Unit {0})
for_each f [] = return tt
for_each f (x ∷ xs) = f x >> for_each f xs

module _ {S A B : Type 0} where
  follow_ok :
      (f : A → Step S B) (x : Result String A × S) (b : B) (s' : S)
      → follow f x ≡ (ok b, s')
      → (a : A) × (s : S) × (x ≡ (ok a, s)) × (f a s ≡ (ok b, s'))
  follow_ok f (ok a, s) b s' h = (a, s, refl, h)
  follow_ok f (err why, s) b s' h = cc

  -- A chain that succeeds has succeeded at each link.
  pub bind_ok :
      (m : Step S A) (f : A → Step S B) (s : S) (b : B) (s' : S)
      → (m >>= f) s ≡ (ok b, s')
      → (a : A) × (t : S) × (m s ≡ (ok a, t)) × (f a t ≡ (ok b, s'))
  unfolding ◌>>=◌
  bind_ok m f s b s' h = follow_ok f (m s) b s' h

  follow_err :
      (f : A → Step S B) (x : Result String A × S) (why : String) (s' : S)
      → follow f x ≡ (err why, s')
      → (x ≡ (err why, s')) ⊎ ((a : A) × (s : S) × (x ≡ (ok a, s)) × (f a s ≡ (err why, s')))
  follow_err f (ok a, s) why s' h = inr (a, s, refl, h)
  follow_err f (err w, s) why s' h = inl (
      let same_why : w ≡ why = cc (h) in
      let same_end : s ≡ s' = ap (λ x. x.1) h in rw (same_why, same_end) refl)

  -- A chain that fails has failed at its first link, or behind it.
  pub bind_err :
      (m : Step S A) (f : A → Step S B) (s : S) (why : String) (s' : S)
      → (m >>= f) s ≡ (err why, s')
      → (m s ≡ (err why, s')) ⊎ ((a : A) × (t : S) × (m s ≡ (ok a, t)) × (f a t ≡ (err why, s')))
  unfolding ◌>>=◌
  bind_err m f s why s' h = follow_err f (m s) why s' h
