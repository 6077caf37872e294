-- ===== src/Host/Run.antt =====
-- Code that runs on the host: it reads and changes the environment, and it may panic.
use safeguard_hooks.Prelude.{Result, ok, err}
use safeguard_hooks.Host.{Host}

-- `panicked` aborts the invocation; no code of the contract runs after it.
pub data Run (E A : Type 0) : Type 0 where
  done : E → A → Run E A
  panicked : Run E A

module _ ⦃H : Host⦄ where
  abbrev pub M : Type 0 → Type 0
  M A = H.Env → Run H.Env A

  abbrev pub pure : {A : Type 0} → A → M A
  pure a e = done e a

  abbrev pub panic : {A : Type 0} → M A
  panic e = panicked

  infixl 5 ◌>>=◌ ◌>>◌
  unfoldable pub ◌>>=◌ : {A B : Type 0} → M A → (A → M B) → M B
  ◌>>=◌ m f e = elim (m e) [ done e' a ↦ f a e' | panicked ↦ panicked ]

  abbrev pub ◌>>◌ : {B : Type 0} → M (Unit {0}) → M B → M B
  m >> k = m >>= λ _. k

  -- Rust's `?` on a result: an error is returned at once.
  abbrev pub or_return : {E A B : Type 0} → Result E A → (A → M (Result E B)) → M (Result E B)
  or_return (err x) k = pure (err x)
  or_return (ok a) k = k a
