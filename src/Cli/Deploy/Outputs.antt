-- ===== src/Cli/Deploy/Outputs.antt =====
-- What the deployments of a bring-up print, by the outcomes of their commands.
use safeguard_hooks.Prelude.{
  String, ◌≡◌, refl, subst, ap, ◌∙◌, Bool, true, false, if◌then◌else◌, err, Option, some, List,
  Result, ok,
}
use safeguard_hooks.Cli.Arguments.{parse_deployed_id}
use safeguard_hooks.Cli.Outcome.{RunOutcome, interpret}
use safeguard_hooks.Cli.Step.{bind_ok}
use safeguard_hooks.Cli.Deploy.{send_raw, sent}

-- The deployment with these arguments, run in this world, succeeds and prints this id.
abbrev pub Prints :
    {S : Type 0}
    → (List String → S → Result String RunOutcome × S)
    → List String
    → S
    → (id : String) → Type 0
Prints run args s id =
    (out : RunOutcome) × ((run args s).0 ≡ ok out)
    × (out.ok ≡ true)
    × (parse_deployed_id out.stdout ≡ some id)

module _ {S : Type 0} (run : List String → S → Result String RunOutcome × S) where
  if_ok :
      (b : Bool) (o out : RunOutcome) (why : String)
      → (if b then ok o else err why) ≡ ok out
      → (o ≡ out) × (b ≡ true)
  if_ok true o out why h = (cc (h), refl)
  if_ok false o out why h = cc (h)

  sent_ok :
      (o out : RunOutcome) (r : Result String (Option String))
      → sent run o r ≡ ok out
      → (o ≡ out) × (o.ok ≡ true)
  sent_ok o out (ok value) h = if_ok o.ok o out _ h
  sent_ok o out (err why) h = if_ok o.ok o out why h

  pub send_raw_ok :
      (args : List String) (out : RunOutcome) (s s' : S) (id : String)
      → send_raw run args s ≡ (ok out, s')
      → parse_deployed_id out.stdout ≡ some id
      → Prints run args s id
  unfolding send_raw
  send_raw_ok args out s s' id h parsed =
      let (o, t, done, rest) = bind_ok (run args) _ s out s' h in
      let (same_out, fine) = sent_ok o out (interpret o) (ap (λ x. x.0) rest) in
      (out, ap (λ x. x.0) done ∙ ap ok same_out, subst (λ x. x.ok ≡ true) same_out fine, parsed)
