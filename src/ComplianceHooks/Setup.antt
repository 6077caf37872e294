-- ===== src/ComplianceHooks/Setup.antt =====
-- What contracts/compliance-hooks/src/lib.rs answers to the calls that set up a fresh contract.

use safeguard_hooks.Prelude.{
  ℕ, ◌+◌, ◌≡◌, refl, sym, ap, ◌∙◌, inl, inr, Bool, true, false, Bool-cases, Option, none, some,
  List, [], ◌∷◌, ◌++◌, ok, same, same_sound, if◌then◌else◌,
}
use safeguard_hooks.Host.{Host}
use safeguard_hooks.Storage.Keys.{ComplianceConfig, TokenBinding}
use safeguard_hooks.Storage.Entries.{current_version}
use safeguard_hooks.Storage.Registry.{Does, assign}
use safeguard_hooks.Events.Kinds.{initialized, compliance_config_changed, token_bound}
use safeguard_hooks.ComplianceHooks.Invoke.{invoke}
use safeguard_hooks.ComplianceHooks.Transition.{
  State, Outcome, returns, Call, initialize, set_config, bind_token, for_admin, to_bind,
  is_bound_to, transition,
}
use safeguard_hooks.ComplianceHooks.Refines.{Meets, returning}
use safeguard_hooks.ComplianceHooks.Refines.Calls.{invoke-Meets}
use safeguard_hooks.ComplianceHooks.Effects.Posts.{same_binding}
use safeguard_hooks.ComplianceHooks.Audit.{fresh}

abbrev pub or_else : {A : Type 0} → Option A → Option A → Option A
or_else none b = b
or_else (some a) b = some a

module _ ⦃H : Host⦄ where
  open H use {Address, Address-discrete, Outside}

  -- The calls are made in this order, each in a world of its own, and each returns `ok`.
  pub data Answered (w : ℕ → Outside) : ℕ → List (Call Address) → (r s : State) → Type 0 where
    all_made : {n : ℕ} {r : State} → Answered w n [] r r
    made :
        {n : ℕ} {c : Call Address} {cs : List (Call Address)} {r s t : State}
        → Does (invoke c) (record r { outside = w n }) (ok tt) s
        → Answered w (n + 1) cs s t
        → Answered w n (c ∷ cs) r t

  abbrev pub Binding : Type 0
  Binding = Address × Option Address

  -- What the last of these bindings for a token says.
  abbrev pub last_binding : List Binding → Address → Option (TokenBinding Address)
  last_binding [] x = none
  last_binding ((token, sac) ∷ more) x =
      or_else (last_binding more x)
        (if same Address-discrete token x then some (record { sac = sac }) else none)

  abbrev pub binds : List Binding → List (Call Address)
  binds [] = []
  binds ((token, sac) ∷ more) = bind_token token sac ∷ binds more

  -- All but the bindings, the log and the world.
  abbrev pub Alike : State → State → Type 0
  Alike r s =
      (s.admin ≡ r.admin)
      × (s.config ≡ r.config)
      × (s.version ≡ r.version)
      × (s.config_version ≡ r.config_version)
      × (s.frozen ≡ r.frozen)

  -- The state of a contract that has been set up.
  pub record IsSetUp (a : Address) (c : ComplianceConfig Address) (bs : List Binding) (s : State)
      : Type 0 where
    pub owned : s.admin ≡ some a
    pub configured : s.config ≡ some c
    pub current : s.version ≡ some current_version
    pub changed_once : s.config_version ≡ some 1
    pub none_frozen : (t x : Address) → s.frozen t x ≡ false
    pub bound : (t : Address) → s.binding t ≡ last_binding bs t

  answers :
      (r : State) (c : Call Address) (s : State)
      → transition r c ≡ returns (ok tt) s
      → Does (invoke c) r (ok tt) s
  answers r c s e = of_outcome (rw (← e) (invoke-Meets r c))
    where
      of_outcome : Meets (invoke c) r (returns (ok tt) s) → Does (invoke c) r (ok tt) s
      of_outcome (returning d) = d

  goes_on :
      (o : Option Address) (r : State) (go : State → Outcome) (a : Address)
      → o ≡ some a
      → H.signed r.outside a ≡ true
      → for_admin o r go ≡ go (record r { outside = H.after_auth r.outside a })
  goes_on o r go a e signed = rw (e, signed) refl

  -- A bind always returns `ok`, and changes the binding of its token only.
  binding :
      (r : State) (token : Address) (sac : Option Address)
      → (s : State) × (to_bind token sac r ≡ returns (ok tt) s)
        × Alike r s
        × ((x : Address)
            → s.binding x ≡ (
                if same Address-discrete token x then some (record { sac = sac }) else r.binding x))
  binding r token sac = elim (Bool-cases (is_bound_to sac (r.binding token))) [
    | inl bound ↦ (
      r,
      rw bound refl,
      (refl, refl, refl, refl, refl),
      λ x. elim (Bool-cases (same Address-discrete token x)) [
        | inl here ↦
            let at : token ≡ x = same_sound Address-discrete token x here in
            rw here (ap r.binding (sym at) ∙ same_binding sac (r.binding token) bound)
        | inr other ↦ rw other refl
      ],
    )
    | inr unbound ↦ (
      record r {
        binding = assign Address-discrete r.binding token (some (record { sac = sac }));
        log = r.log ++ token_bound token ∷ [];
      },
      rw unbound refl,
      (refl, refl, refl, refl, refl),
      λ x. refl,
    )
  ]

  Alike-then : (r s t : State) → Alike r s → Alike s t → Alike r t
  Alike-then r s t p q = (q.0 ∙ p.0, q.1 ∙ p.1, q.2 ∙ p.2, q.3 ∙ p.3, q.4 ∙ p.4)

  or_else_regrouped :
      {A : Type 0} (o : Option A) (t : Bool) (v : A) (b : Option A)
      → or_else o (if t then some v else b) ≡ or_else (or_else o (if t then some v else none)) b
  or_else_regrouped none true v b = refl
  or_else_regrouped none false v b = refl
  or_else_regrouped (some x) t v b = refl

  or_else-none : {A : Type 0} (o : Option A) → or_else o none ≡ o
  or_else-none none = refl
  or_else-none (some x) = refl

  admin_binds :
      (r : State) (a token : Address) (sac : Option Address) (s : State)
      → r.admin ≡ some a
      → H.signed r.outside a ≡ true
      → to_bind token sac (record r { outside = H.after_auth r.outside a }) ≡ returns (ok tt) s
      → transition r (bind_token token sac) ≡ returns (ok tt) s
  unfolding transition
  admin_binds r a token sac s e signed bound =
      goes_on r.admin r (to_bind token sac) a e signed ∙ bound

  module _ (w : ℕ → Outside) (a : Address) (signed : (n : ℕ) → H.signed (w n) a ≡ true) where
    bindings :
        (bs : List Binding) (n : ℕ) (r : State)
        → r.admin ≡ some a
        → (s : State) × Answered w n (binds bs) r s
          × Alike r s
          × ((x : Address) → s.binding x ≡ or_else (last_binding bs x) (r.binding x))
    bindings [] n r e = (r, all_made, (refl, refl, refl, refl, refl), λ x. refl)
    bindings ((token, sac) ∷ bs) n r e =
        let q : State = record r { outside = H.after_auth (w n) a } in
        let (s, bound, alike, here) = binding q token sac in
        let (t, rest, alike', there) = bindings bs (n + 1) s (alike.0 ∙ e) in
        (
          t,
          made
              (answers (record r { outside = w n }) (bind_token token sac) s
                (admin_binds (record r { outside = w n }) a token sac s e (signed n) bound))
              rest,
          Alike-then q s t alike alike',
          λ x.
              there x
              ∙ ap (or_else (last_binding bs x)) (here x)
              ∙ or_else_regrouped (last_binding bs x) _ _ _,
        )

    -- The calls that set up a contract.
    abbrev pub setup : ComplianceConfig Address → List Binding → List (Call Address)
    setup c bs = initialize a ∷ set_config c.policy c.sac_passthrough ∷ binds bs

    pub setup_lem :
        (c : ComplianceConfig Address) (bs : List Binding) (u : Outside)
        → (s : State) × Answered w 0 (setup c bs) (fresh u) s × IsSetUp a c bs s
    unfolding transition
    setup_lem c bs u =
        let q : State = record (fresh u) {
          admin = some a;
          version = some current_version;
          log = initialized a ∷ [];
          outside = H.after_auth (w 0) a;
        } in
        let r : State = record q {
          config = some c;
          config_version = some 1;
          log = initialized a ∷ compliance_config_changed c.policy c.sac_passthrough ∷ [];
          outside = H.after_auth (w 1) a;
        } in
        let (s, rest, alike, bound) = bindings bs 2 r refl in
        (
          s,
          made (answers (record (fresh u) { outside = w 0 }) (initialize a) q (rw (signed 0) refl))
              (made
                (answers (record q { outside = w 1 }) (set_config c.policy c.sac_passthrough) r
                  (goes_on (some a) (record q { outside = w 1 }) _ a refl (signed 1)))
                rest),
          record {
            owned = alike.0;
            configured = alike.1;
            current = alike.2;
            changed_once = alike.3;
            none_frozen = λ t x. ap (λ f. f t x) alike.4;
            bound = λ t. bound t ∙ or_else-none (last_binding bs t);
          },
        )
