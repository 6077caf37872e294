-- ===== src/Cli/Deploy/Stops.antt =====
-- What code of cli/src/main.rs that fails has done to the world: the first of its acts.
use mathlib.Core.List.{append-nil, append_assoc}
use Prim.Native.String.{◌++◌ as ◌<>◌}
use safeguard_hooks.Prelude.{
  String, ◌≡◌, ◌⊎◌, inl, inr, refl, sym, ap, ◌∙◌, Bool, true, false, not, Option, none, some, List,
  [], ◌∷◌, ◌++◌, flat_map, Result, err, if◌then◌else◌,
}
use safeguard_hooks.Cli.Arguments.{invoke_args}
use safeguard_hooks.Cli.Outcome.{RunOutcome}
use safeguard_hooks.Cli.Step.{◌>>=◌, Step, return, fail, some_or, for_each, bind_err}
use safeguard_hooks.Cli.Config.{Config}
use safeguard_hooks.Cli.Deploy.{send_raw, invoke, println}
use safeguard_hooks.Cli.Deploy.Acts.{Act, ran, Acts, after_all, in_turn}

pub some_or_err :
    {S A : Type 0} (why : String) (o : Option A) (s : S) (w : String) (s' : S)
    → some_or why o s ≡ (err w, s')
    → s' ≡ s
some_or_err why none s w s' h = sym (ap (λ x. x.1) h)
some_or_err why (some a) s w s' h = cc (h)

pub unless_err :
    {S A : Type 0} (b : Bool) (why : String) (m : Step S A) (s : S) (w : String) (s' : S)
    → (if not b then fail why else m) s ≡ (err w, s')
    → (s' ≡ s) ⊎ (m s ≡ (err w, s'))
unless_err true why m s w s' h = inr h
unless_err false why m s w s' h = inl (sym (ap (λ x. x.1) h))

module _ {S : Type 0} (run : List String → S → Result String RunOutcome × S)
    (exists : String → Bool) (save : Config → String → Step S (Unit {0}))
    (print : String → S → S) where
  -- From `s` to `s'` the first of these acts are done.
  abbrev pub Begun : List Act → (s s' : S) → Type 0
  Begun acts s s' =
      (first : List Act) × (rest : List Act) × (acts ≡ first ++ rest)
      × (s' ≡ after_all run exists save print first s)

  pub nothing_done : (acts : List Act) (s s' : S) → s' ≡ s → Begun acts s s'
  unfolding after_all
  nothing_done acts s s' e = ([], acts, refl, e)

  pub ended :
      (acts : List Act) (s s' : S) → s' ≡ after_all run exists save print acts s → Begun acts s s'
  ended acts s s' e = (acts, [], sym (append-nil acts), e)

  pub and_more : (bs cs : List Act) (s s' : S) → Begun bs s s' → Begun (bs ++ cs) s s'
  and_more bs cs s s' (first, rest, e, d) =
      (first, rest ++ cs, ap (λ x. x ++ cs) e ∙ append_assoc first rest cs, d)

  pub done_before :
      (bs cs : List Act) (s t s' : S)
      → t ≡ after_all run exists save print bs s
      → Begun cs t s'
      → Begun (bs ++ cs) s s'
  done_before bs cs s t s' done (first, rest, e, d) = (
    bs ++ first,
    rest,
    ap (λ x. bs ++ x) e ∙ sym (append_assoc bs first rest),
    in_turn run exists save print bs first s t s' done d,
  )

  -- The code, where it fails, has begun these acts.
  unfoldable pub Stops : {A : Type 0} → Step S A → List Act → Type 0
  Stops m acts = (s : S) (why : String) (s' : S) → m s ≡ (err why, s') → Begun acts s s'

  pub println-Stops :
      (line : String) (acts : List Act) → Stops (println run exists save print line) acts
  unfolding Stops
  println-Stops line acts s why s' h = cc (h)

  pub run-Stops :
      {A : Type 0} (args : List String) (f : RunOutcome → Result String A)
      → Stops (run args >>= λ o s. (f o, s)) (ran args ∷ [])
  unfolding Stops after_all
  run-Stops args f s why s' h = elim (bind_err (run args) (λ o s. (f o, s)) s why s' h) [
    | inl stopped ↦ ended _ s s' (sym (ap (λ x. x.1) stopped))
    | inr (o, t, done, rest) ↦ ended _ s s' (sym (ap (λ x. x.1) rest) ∙ sym (ap (λ x. x.1) done))
  ]

  pub send_raw-Stops : (args : List String) → Stops (send_raw run args) (ran args ∷ [])
  unfolding send_raw
  send_raw-Stops args = run-Stops args _

  pub some_or-Stops :
      {A : Type 0} (why : String) (o : Option A) (acts : List Act) → Stops (some_or why o) acts
  unfolding Stops
  some_or-Stops why o acts s w s' h = nothing_done acts s s' (some_or_err why o s w s' h)

  pub bind-Stops :
      {A B : Type 0} (m : Step S A) (f : A → Step S B) (bs cs : List Act)
      → Stops m bs
      → ((x : A) → Acts run exists save print m x bs)
      → ((x : A) → Stops (f x) cs)
      → Stops (m >>= f) (bs ++ cs)
  unfolding Stops Acts
  bind-Stops m f bs cs stops acts later s why s' h = elim (bind_err m f s why s' h) [
    | inl stopped ↦ and_more bs cs s s' (stops s why s' stopped)
    | inr (x, t, done, rest) ↦ done_before bs cs s t s' (acts x s t done) (later x t why s' rest)
  ]

  pub unless-Stops :
      {A : Type 0} (b : Bool) (why : String) (m : Step S A) (acts : List Act)
      → Stops m acts
      → Stops (if not b then fail why else m) acts
  unfolding Stops
  unless-Stops true why m acts stops s w s' h = stops s w s' h
  unless-Stops false why m acts stops s w s' h = nothing_done acts s s' (sym (ap (λ x. x.1) h))

  pub invoke-Stops :
      (source hooks_id network func : String) (params : List (String × String))
      → Stops
          (invoke run source hooks_id network func params)
          (ran (invoke_args (some source) hooks_id network func params) ∷ [])
  unfolding invoke
  invoke-Stops source hooks_id network func params = run-Stops _ _

  pub for_each-Stops :
      {A : Type 0} (f : A → Step S (Unit {0})) (acts : A → List Act)
      → ((x : A) → Stops (f x) (acts x))
      → ((x : A) → Acts run exists save print (f x) tt (acts x))
      → (xs : List A) → Stops (for_each f xs) (flat_map acts xs)
  unfolding for_each flat_map Stops
  for_each-Stops f acts stops each [] s why s' h = cc (h)
  for_each-Stops f acts stops each (x ∷ xs) s why s' h =
      bind-Stops (f x) (λ _. for_each f xs) (acts x) (flat_map acts xs) (stops x) (λ u. each x)
        (λ _. for_each-Stops f acts stops each xs) s why s' h

  some_or-Acts :
      {A : Type 0} (why : String) (o : Option A) (a : A)
      → Acts run exists save print (some_or why o) a []
  unfolding Acts after_all
  some_or-Acts why none a s s' h = cc (h)
  some_or-Acts why (some x) a s s' h = sym (ap (λ x. x.1) h)

  never : (line id : String) → Stops (println run exists save print line >>= λ _. return id) []
  unfolding Stops ◌>>=◌
  never line id s w s' h = cc (h)

  -- What is made of the output of a deployment.
  pub told-Stops :
      (why line : String) (o : Option String)
      → Stops
          (some_or why o >>= λ id. println run exists save print (line <> id) >>= λ _. return id)
          []
  told-Stops why line o =
      bind-Stops (some_or why o) _ [] [] (some_or-Stops why o []) (some_or-Acts why o)
        λ id. never (line <> id) id
