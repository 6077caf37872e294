-- ===== src/Cli/Deploy/Acts.antt =====
-- What code of cli/src/main.rs that succeeds has done to the world.
use safeguard_hooks.Prelude.{
  String, ◌≡◌, refl, sym, ap, ◌∙◌, Bool, true, false, not, Option, none, some, List, [], ◌∷◌, ◌++◌,
  flat_map, Result, ok, if◌then◌else◌,
}
use safeguard_hooks.Cli.Arguments.{invoke_args}
use safeguard_hooks.Cli.Outcome.{RunOutcome}
use safeguard_hooks.Cli.Step.{◌>>=◌, Step, fail, some_or, for_each, bind_ok}
use safeguard_hooks.Cli.Config.{Config}
use safeguard_hooks.Cli.Deploy.{send_raw, invoke, println}

-- What is done to the world: a command of the stellar CLI is run, or a line is printed.
pub data Act : Type 0 where
  ran : List String → Act
  said : String → Act

module _ {S A : Type 0} where
  pub some_or_ok :
      (why : String) (o : Option A) (s : S) (a : A) (s' : S)
      → some_or why o s ≡ (ok a, s')
      → (o ≡ some a) × (s' ≡ s)
  some_or_ok why none s a s' h = cc
  some_or_ok why (some x) s a s' h = (cc, cc)

  pub unless_ok :
      (b : Bool) (why : String) (m : Step S A) (s : S) (a : A) (s' : S)
      → (if not b then fail why else m) s ≡ (ok a, s')
      → m s ≡ (ok a, s')
  unless_ok true why m s a s' h = h
  unless_ok false why m s a s' h = cc

module _ {S : Type 0} (run : List String → S → Result String RunOutcome × S)
    (exists : String → Bool) (save : Config → String → Step S (Unit {0}))
    (print : String → S → S) where
  -- The state of the world after these acts.
  unfoldable pub after_all : List Act → S → S
  after_all [] s = s
  after_all (ran args ∷ acts) s = after_all acts (run args s).1
  after_all (said line ∷ acts) s = after_all acts (print line s)

  pub after_all-append :
      (bs cs : List Act) (s : S) → after_all (bs ++ cs) s ≡ after_all cs (after_all bs s)
  unfolding after_all
  after_all-append [] cs s = refl
  after_all-append (ran args ∷ bs) cs s = after_all-append bs cs (run args s).1
  after_all-append (said line ∷ bs) cs s = after_all-append bs cs (print line s)

  pub in_turn :
      (bs cs : List Act) (s t u : S)
      → t ≡ after_all bs s
      → u ≡ after_all cs t
      → u ≡ after_all (bs ++ cs) s
  in_turn bs cs s t u e f = f ∙ ap (after_all cs) e ∙ sym (after_all-append bs cs s)

  -- The code, where it succeeds with this value, does these acts.
  unfoldable pub Acts : {A : Type 0} → Step S A → A → List Act → Type 0
  Acts m a acts = (s s' : S) → m s ≡ (ok a, s') → s' ≡ after_all acts s

  pub println-Acts : (line : String) → Acts (println run exists save print line) tt (said line ∷ [])
  unfolding Acts after_all
  println-Acts line s s' h = sym (ap (λ x. x.1) h)

  -- A command, and what is made of its outcome.
  run-Acts :
      {A : Type 0} (args : List String) (f : RunOutcome → Result String A) (a : A)
      → Acts (run args >>= λ o s. (f o, s)) a (ran args ∷ [])
  unfolding Acts after_all
  run-Acts args f a s s' h =
      let (o, t, done, rest) = bind_ok (run args) _ s a s' h in
      let same : s' ≡ t = sym (ap (λ x. x.1) rest) in same ∙ sym (ap (λ x. x.1) done)

  pub send_raw-Acts :
      (args : List String) (o : RunOutcome) → Acts (send_raw run args) o (ran args ∷ [])
  unfolding send_raw
  send_raw-Acts args o = run-Acts args _ o

  pub invoke-Acts :
      (source hooks_id network func : String) (params : List (String × String))
      → Acts
          (invoke run source hooks_id network func params)
          tt
          (ran (invoke_args (some source) hooks_id network func params) ∷ [])
  unfolding invoke
  invoke-Acts source hooks_id network func params = run-Acts _ _ tt

  -- A step of the lifecycle, with its line.
  pub step_Acts :
      (source hooks_id network func : String) (params : List (String × String)) (line : String)
      → Acts
          (invoke run source hooks_id network func params >>= λ _.
            println run exists save print line)
          tt
          (ran (invoke_args (some source) hooks_id network func params) ∷ said line ∷ [])
  unfolding Acts
  step_Acts source hooks_id network func params line s s' h =
      let args = invoke_args (some source) hooks_id network func params in
      let (u, t, done, rest) = bind_ok _ _ s tt s' h in
      in_turn (ran args ∷ []) (said line ∷ []) s t s'
        (invoke-Acts source hooks_id network func params s t done) (println-Acts line t s' rest)

  pub for_each-Acts :
      {A : Type 0} (f : A → Step S (Unit {0})) (acts : A → List Act)
      → ((x : A) → Acts (f x) tt (acts x))
      → (xs : List A) → Acts (for_each f xs) tt (flat_map acts xs)
  unfolding Acts for_each after_all flat_map
  for_each-Acts f acts each [] s s' h = sym (ap (λ x. x.1) h)
  for_each-Acts f acts each (x ∷ xs) s s' h =
      let (u, t, first, rest) = bind_ok (f x) (λ _. for_each f xs) s tt s' h in
      in_turn (acts x) (flat_map acts xs) s t s' (each x s t first)
        (for_each-Acts f acts each xs t s' rest)
