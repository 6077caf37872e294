-- ===== src/Cli/Verify/ReadOnly.antt =====
-- Whatever `verify` is told, it only reads.
use safeguard_hooks.Prelude.{
  String, Bool, true, false, Option, none, some, List, [], ◌∷◌, Result, ok, err, if◌then◌else◌,
}
use text.Mathlib.Text.{◌==◌ as str_eq}
use safeguard_hooks.Cli.Arguments.{view_args}
use safeguard_hooks.Cli.Outcome.{RunOutcome, view, gate, settle}
use safeguard_hooks.Cli.Config.{Config}
use safeguard_hooks.Cli.Checks.{Check, unquote}
use safeguard_hooks.Cli.Verify.{
  Query, return, ◌>>=◌, gather, ask, simulate, ask_version, probe_bound, probe_checks,
  sample_checks, later_checks, reached, verify,
}

module _ {S : Type 0} (Inv : S → Type 0) where
  -- What holds of the world before still holds after.
  record Keeps {A : Type 0} (m : Query S A) : Type 0 where
    pub kept : (s : S) → Inv s → Inv (m s).1

  Keeps-return : {A : Type 0} (a : A) → Keeps (return a)
  Keeps-return a = record { kept = λ s h. h }

  Keeps-bind :
      {A B : Type 0} (m : Query S A) (f : A → Query S B)
      → Keeps m
      → ((a : A) → Keeps (f a))
      → Keeps (m >>= f)
  unfolding ◌>>=◌
  Keeps-bind m f hm hf = record { kept = λ s h. (hf (m s).0).kept (m s).1 (hm.kept s h) }

  Keeps-gather :
      {A : Type 0} (f : A → Query S (List Check)) (xs : List A)
      → ((x : A) → Keeps (f x))
      → Keeps (gather f xs)
  unfolding gather
  Keeps-gather f [] h = Keeps-return []
  Keeps-gather f (x ∷ xs) h =
      Keeps-bind (f x) _ (h x)
        λ one. Keeps-bind (gather f xs) _ (Keeps-gather f xs h) λ more. Keeps-return _

  Keeps-if :
      {A : Type 0} (b : Bool) (m n : Query S A) → Keeps m → Keeps n → Keeps (if b then m else n)
  Keeps-if true m n hm hn = hm
  Keeps-if false m n hm hn = hn

module _ (debug : String → String) (json_policy : String → Option String) {S : Type 0}
    (run : List String → S → Result String RunOutcome × S) (config : Config)
    (source_account : String) (Inv : S → Type 0)
    (reads : (func : String) (params : List (String × String)) (s : S)
      → Inv s
      → Inv
          (run
            (view_args source_account config.hooks_contract_id config.network func params)
            s).1) where
  settled :
      {B : Type 0} (f : RunOutcome → Result String B) (x : Result String RunOutcome × S)
      → Inv x.1
      → Inv (settle run f x).1
  settled f (ok o, s) h = h
  settled f (err why, s) h = h

  Keeps-ask :
      (func : String) (params : List (String × String))
      → Keeps Inv (ask debug json_policy run config source_account func params)
  unfolding view
  Keeps-ask func params = record { kept = λ s h. settled _ _ (reads func params s h) }

  Keeps-simulate :
      (func : String) (params : List (String × String))
      → Keeps Inv (simulate debug json_policy run config source_account func params)
  unfolding gate
  Keeps-simulate func params = record { kept = λ s h. settled _ _ (reads func params s h) }

  Keeps-version :
      (func : String) → Keeps Inv (ask_version debug json_policy run config source_account func)
  Keeps-version func = Keeps-bind Inv _ _ (Keeps-ask func []) λ answer. Keeps-return Inv _

  Keeps-probe :
      (answer : Result String String)
      → Keeps Inv (probe_bound debug json_policy run config source_account answer)
  Keeps-probe (err why) = Keeps-return Inv _
  Keeps-probe (ok value) =
      Keeps-if Inv (str_eq (unquote value) "true") _ _ (Keeps-return Inv _)
        (Keeps-bind Inv _ _ (Keeps-simulate _ _) λ outcome. Keeps-return Inv _)

  Keeps-samples :
      (account : Option String) (configured : Bool)
      → Keeps Inv (sample_checks debug json_policy run config source_account account configured)
  Keeps-samples none configured = Keeps-return Inv _
  Keeps-samples (some account) false = Keeps-return Inv _
  Keeps-samples (some account) true =
      Keeps-gather Inv _ config.tokens
        λ token. Keeps-bind Inv _ _ (Keeps-simulate _ _) λ outcome. Keeps-return Inv _

  Keeps-later :
      (account : Option String) (initialized : String)
      → Keeps Inv (later_checks debug json_policy run config source_account account initialized)
  unfolding later_checks probe_checks
  Keeps-later account initialized = Keeps-bind Inv _ _ (Keeps-ask "admin" []) λ admin.
      Keeps-bind Inv _ _ (Keeps-ask "config" []) λ stored.
        Keeps-bind Inv _ _
          (Keeps-gather Inv (ask_version debug json_policy run config source_account)
            ("config_version" ∷ "state_version" ∷ []) Keeps-version)
          λ on_versions.
            Keeps-bind Inv _ _
              (Keeps-gather Inv _ config.tokens λ token.
                Keeps-bind Inv _ _ (Keeps-ask "token_is_bound" _) λ answer. Keeps-return Inv _)
              λ on_tokens.
                Keeps-bind Inv _ _ (Keeps-bind Inv _ _ (Keeps-ask "token_is_bound" _) Keeps-probe)
                  λ on_probe.
                    Keeps-bind Inv _ _ (Keeps-samples account _) λ on_samples. Keeps-return Inv _

  Keeps-reached :
      (account : Option String) (first : Result String String)
      → Keeps Inv (reached debug json_policy run config source_account account first)
  Keeps-reached account (err why) = Keeps-return Inv _
  Keeps-reached account (ok initialized) = Keeps-later account initialized

  -- Whatever a read-only call of the hooks contract keeps, with the public key as its source and
  -- `--send=no`, a whole verification keeps: it runs no other command, whatever it is answered.
  pub verify_reads :
      (account : Option String) (s : S)
      → Inv s
      → Inv (verify debug json_policy run config source_account account s).1
  unfolding verify
  verify_reads account s h =
      (Keeps-bind Inv _ _ (Keeps-ask "initialized" []) (Keeps-reached account)).kept s h
