-- ===== src/ComplianceHooks/Effects/Outcomes.antt =====
-- Every outcome of the state machine, and so of the code, has one of the effects.
use safeguard_hooks.Prelude.{
  ◌≡◌, refl, Bool, true, false, Option, none, some, is_some, option_eq, ◌==◌, u32_max, unwrap_or,
  err, subst, none_of_is_some, if◌then◌else◌,
}
use safeguard_hooks.Host.{Host}
use safeguard_hooks.Host.Run.{M, done}
use safeguard_hooks.Storage.Keys.{ComplianceConfig, config_eq}
use safeguard_hooks.Storage.Registry.{Shows}
use safeguard_hooks.ComplianceHooks.{Reply, unbound_token, invalid_configuration}
use safeguard_hooks.ComplianceHooks.Invoke.{invoke}
use safeguard_hooks.ComplianceHooks.Transition.{
  State, Outcome, returns, aborts, Call, initialize, set_config, bind_token, unbind_token, freeze,
  unfreeze, to_configure, to_bind, to_unbind, to_freeze, to_unfreeze, is_bound_to, for_admin,
  if_signed, in_scope, to_enforce, transition,
}
use safeguard_hooks.ComplianceHooks.Refines.{Meets, returning, aborting}
use safeguard_hooks.ComplianceHooks.Refines.Calls.{invoke-Meets}
use safeguard_hooks.ComplianceHooks.Effects.{
  Signed, Effect, keeps, initializes, configures, binds, unbinds, freezes, unfreezes,
}

module _ ⦃H : Host⦄ where
  open H use {Address, Address-discrete, Env, Outside}

  -- What holds of the reply and of the state, where there are any.
  pub data Holds (P : Reply → State → Type 0) : Outcome → Type 0 where
    holding : {reply : Reply} {s : State} → P reply s → Holds P (returns reply s)
    vacuous : Holds P aborts

  module _ {P : Reply → State → Type 0} where
    pub Holds-if :
        (b : Bool) (o p : Outcome)
        → (b ≡ true → Holds P o)
        → (b ≡ false → Holds P p)
        → Holds P (if b then o else p)
    Holds-if true o p ho hp = ho refl
    Holds-if false o p ho hp = hp refl

    pub Holds-for_admin :
        (r : State) (o : Option Address) (go : State → Outcome)
        → r.admin ≡ o
        → P (err invalid_configuration) r
        → ((w : Outside) → Signed r w → Holds P (go (record r { outside = w })))
        → Holds P (for_admin o r go)
    Holds-for_admin r none go e refused rest = holding refused
    Holds-for_admin r (some a) go e refused rest = by_signature (H.signed r.outside a) refl
      where
        by_signature :
            (b : Bool)
            → H.signed r.outside a ≡ b
            → Holds P (if_signed b (record r { outside = H.after_auth r.outside a }) go)
        by_signature true s = rest _ (record { who = a; is_admin = e; stood = s; left = refl })
        by_signature false s = vacuous

    pub Holds-in_scope :
        (token : Address) (r : State) (go : State → Outcome)
        → P (err invalid_configuration) r
        → P (err unbound_token) r
        → (is_some r.config ≡ true → is_some (r.binding token) ≡ true → Holds P (go r))
        → Holds P (in_scope token r go)
    Holds-in_scope token r go unset unbound rest =
        Holds-if (is_some r.config) _ _
          (λ configured.
            Holds-if (is_some (r.binding token)) _ _ (rest configured) λ _. holding unbound)
          λ _. holding unset

  abbrev pub Effects : State → Call Address → Outcome → Type 0
  Effects r c o = Holds (Effect r c) o

  pub transition-Effects : (r : State) (c : Call Address) → Effects r c (transition r c)
  unfolding transition to_enforce
  transition-Effects r (initialize a) =
      Holds-if (is_some r.admin) _ _ (λ _. holding (keeps r.outside))
        λ missing.
          Holds-if (H.signed r.outside a) _ _
            (λ signed. holding (initializes (none_of_is_some r.admin missing) signed)) λ _. vacuous
  transition-Effects r (set_config policy sac_passthrough) =
      let c : ComplianceConfig Address = record {
        policy = policy;
        sac_passthrough = sac_passthrough;
      } in
      Holds-for_admin r _ (to_configure c) refl (keeps r.outside) λ w s.
        Holds-if (option_eq (config_eq Address-discrete) r.config (some c)) _ _
          (λ _. holding (keeps w))
          λ changed.
            Holds-if (unwrap_or r.config_version 0 == u32_max) _ _ (λ _. vacuous)
              λ small. holding (configures s changed small)
  transition-Effects r (bind_token token sac) =
      Holds-for_admin r _ (to_bind token sac) refl (keeps r.outside) λ w s.
        Holds-if (is_bound_to sac (r.binding token)) _ _ (λ _. holding (keeps w))
          λ changed. holding (binds s changed)
  transition-Effects r (unbind_token token) =
      Holds-for_admin r _ (to_unbind token) refl (keeps r.outside) λ w s.
        Holds-if (is_some (r.binding token)) _ _ (λ bound. holding (unbinds s bound))
          λ _. holding (keeps w)
  transition-Effects r (freeze token account) =
      let go = to_freeze token account in
      Holds-for_admin r _ (λ q. in_scope token q go) refl (keeps r.outside)
        λ w s.
          Holds-in_scope token (record r { outside = w }) go (keeps w) (keeps w)
            λ configured bound.
              Holds-if (r.frozen token account) _ _ (λ _. holding (keeps w))
                λ free. holding (freezes s configured bound free)
  transition-Effects r (unfreeze token account) =
      let go = to_unfreeze token account in
      Holds-for_admin r _ (λ q. in_scope token q go) refl (keeps r.outside)
        λ w s.
          Holds-in_scope token (record r { outside = w }) go (keeps w) (keeps w)
            λ configured bound.
              Holds-if (r.frozen token account) _ _
                (λ frozen. holding (unfreezes s configured bound frozen)) λ _. holding (keeps w)
  transition-Effects r _ = holding (keeps _)

  module _ (e e' : Env) (reply : Reply) (r : State) where
    pub ended :
        (P : Reply → State → Type 0) (m : M Reply) (o : Outcome)
        → Meets m r o
        → Holds P o
        → Shows e r
        → m e ≡ done e' reply
        → (r' : State) × Shows e' r' × P reply r'
    ended P m _ (returning {r' = s} d) (holding h) shown ran =
        let (e'', ran', shown') = d.ends e shown in
        let same_env : e'' ≡ e' = cc in
        let same_reply : _ ≡ reply = cc in
        (s, subst (λ x. Shows x s) same_env shown', subst (λ x. P x s) same_reply h)
    ended P m _ (aborting p) h shown ran = cc (p.ends e shown)

  -- What a call that returns can have done.
  pub invoke-Effect :
      (r : State) (c : Call Address) (e e' : Env) (reply : Reply)
      → Shows e r
      → invoke c e ≡ done e' reply
      → (r' : State) × Shows e' r' × Effect r c reply r'
  invoke-Effect r c e e' reply =
      ended e e' reply r (Effect r c) (invoke c) _ (invoke-Meets r c) (transition-Effects r c)
