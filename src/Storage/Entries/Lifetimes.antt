-- ===== src/Storage/Entries/Lifetimes.antt =====
-- Reads of crates/storage/src/{bindings, freeze}.rs keep the entry alive.
use safeguard_hooks.Prelude.{
  ◌≤◌, ◌≡◌, sym, ◌∙◌, true, false, Option, none, some, Bool-cases, inl, inr, arith, ltb, ℕ,
  if◌then◌else◌,
}
use safeguard_hooks.Host.{Host, Value}
use safeguard_hooks.Host.Run.{done, ◌>>=◌}
use safeguard_hooks.Storage.Keys.{DataKey, TokenBinding}
use safeguard_hooks.Storage.Entries.{
  touch, token_binding, is_frozen, read_binding, typed, to_binding, ttl_threshold, ttl_extend_to,
}

extended : (n m : ℕ) → m ≡ (if ltb n ttl_threshold then ttl_extend_to else n) → ttl_threshold ≤ m
extended n m h = ground arith

module _ ⦃H : Host⦄ where
  open H use {Address, Env}

  renewed :
      (e : Env) (k : DataKey Address)
      → H.persistent_has e k ≡ true
      → ttl_threshold ≤ H.ttl (H.extend_ttl e k ttl_threshold ttl_extend_to) k
  renewed e k live = extended (H.ttl e k) _ (H.ttl-extend_ttl e k ttl_threshold ttl_extend_to live)

  touch_live :
      (e : Env) (k : DataKey Address)
      → H.persistent_has e k ≡ true
      → touch k e ≡ done (H.extend_ttl e k ttl_threshold ttl_extend_to) tt
  unfolding touch
  touch_live e k live = rw live

  is_frozen_live :
      (t a : Address) (e : Env)
      → H.persistent_has e (DataKey.freeze t a) ≡ true
      → is_frozen t a e
        ≡ done (H.extend_ttl e (DataKey.freeze t a) ttl_threshold ttl_extend_to) true
  unfolding is_frozen ◌>>=◌
  is_frozen_live t a e live = rw live (rw (touch_live e (DataKey.freeze t a) live, ◌>>=◌))

  is_frozen_missing :
      (t a : Address) (e : Env)
      → H.persistent_has e (DataKey.freeze t a) ≡ false
      → is_frozen t a e ≡ done e false
  unfolding is_frozen
  is_frozen_missing t a e missing = rw missing

  -- A read that finds an account frozen leaves its flag with at least the threshold to live.
  pub is_frozen_renews :
      (token account : Address) (e e' : Env)
      → is_frozen token account e ≡ done e' true
      → ttl_threshold ≤ H.ttl e' (DataKey.freeze token account)
  is_frozen_renews token account e e' ran =
      elim (Bool-cases (H.persistent_has e (DataKey.freeze token account))) [
        | inl live ↦
            let same_env : e'
                ≡ H.extend_ttl e (DataKey.freeze token account) ttl_threshold ttl_extend_to =
              cc (is_frozen_live token account e live) in
            rw same_env (renewed e _ live)
        | inr missing ↦ cc (is_frozen_missing token account e missing)
      ]

  token_binding_live :
      (t : Address) (e : Env)
      → H.persistent_has e (DataKey.token_binding t) ≡ true
      → token_binding t e
        ≡ read_binding
            (DataKey.token_binding t)
            (H.extend_ttl e (DataKey.token_binding t) ttl_threshold ttl_extend_to)
  unfolding token_binding ◌>>=◌
  token_binding_live t e live = rw live (rw (touch_live e (DataKey.token_binding t) live, ◌>>=◌))

  token_binding_missing :
      (t : Address) (e : Env)
      → H.persistent_has e (DataKey.token_binding t) ≡ false
      → token_binding t e ≡ done e none
  unfolding token_binding
  token_binding_missing t e missing = rw missing

  typed_env :
      (v : Option (Value Address)) (e e' : Env) (o : Option (TokenBinding Address))
      → typed to_binding v e ≡ done e' o
      → e' ≡ e
  typed_env none e e' o ran = cc
  typed_env (some (Value.binding b)) e e' o ran = cc
  typed_env (some _) e e' o ran = cc

  -- A read that finds a token bound leaves its binding with at least the threshold to live.
  token_binding_renews :
      (token : Address) (e e' : Env) (b : TokenBinding Address)
      → token_binding token e ≡ done e' (some b)
      → ttl_threshold ≤ H.ttl e' (DataKey.token_binding token)
  unfolding read_binding
  token_binding_renews token e e' b ran =
      elim (Bool-cases (H.persistent_has e (DataKey.token_binding token))) [
        | inl live ↦
            rw (typed_env _ _ e' (some b) (sym (token_binding_live token e live) ∙ ran))
              (renewed e _ live)
        | inr missing ↦ cc (token_binding_missing token e missing)
      ]
