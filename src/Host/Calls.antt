-- ===== src/Host/Calls.antt =====
-- The host's calls as code of the monad, with what each does to a registry that is shown.
use safeguard_hooks.Prelude.{
  String, ◌≡◌, refl, ap, ◌∙◌, true, false, none, some, List, [], ◌∷◌, ◌++◌,
}
use safeguard_hooks.Host.{Host, Answer, View}
use safeguard_hooks.Host.Run.{M, done, panicked}
use safeguard_hooks.Events.Kinds.{Event}
use safeguard_hooks.Storage.Registry.{Registry, Does, Panics}

module _ ⦃H : Host⦄ where
  open H use {Address, Env, Outside, view}

  -- `address.require_auth()`
  pub require_auth : Address → M (Unit {0})
  require_auth a e = elim (H.require_auth e a) [ none ↦ panicked | some e' ↦ done e' tt ]

  -- `event.publish(e)`
  pub publish : Event Address → M (Unit {0})
  publish ev e = done (H.publish e ev) tt

  -- `e.try_invoke_contract::<bool, Error>(contract, func, args)`
  pub try_invoke : Address → String → List Address → M Answer
  try_invoke c fn args e = let (answer, e') = H.try_invoke_contract e c fn args in done e' answer

  module _ (r : Registry Address Outside) where
    pub require_auth-Does :
        (a : Address)
        → H.signed r.outside a ≡ true
        → Does (require_auth a) r tt (record r { outside = H.after_auth r.outside a })
    unfolding require_auth
    require_auth-Does a signed = record {
      ends = λ e s.
          let outside : (view e).outside ≡ r.outside = ap (λ v. v.outside) s.seen in
          let (e', ran, seen) = H.require_auth_signed e a (rw outside signed) in
          (
            e',
            rw (ran, require_auth) refl,
            record {
              seen =
                  seen
                  ∙ ap
                      (λ (v : View Address Outside). record v {
                        outside = H.after_auth v.outside a;
                      })
                      s.seen;
            },
          );
    }

    pub require_auth-Panics :
        (a : Address) → H.signed r.outside a ≡ false → Panics (require_auth a) r
    unfolding require_auth
    require_auth-Panics a unsigned = record {
      ends = λ e s.
          let outside : (view e).outside ≡ r.outside = ap (λ v. v.outside) s.seen in
          rw (H.require_auth_unsigned e a (rw outside unsigned), require_auth) refl;
    }

    pub publish-Does :
        (ev : Event Address) → Does (publish ev) r tt (record r { log = r.log ++ ev ∷ [] })
    unfolding publish
    publish-Does ev = record {
      ends = λ e s. (
        _,
        refl,
        record {
          seen =
              H.view-publish e ev
              ∙ ap (λ (v : View Address Outside). record v { events = v.events ++ ev ∷ [] }) s.seen;
        },
      );
    }

    pub try_invoke-Does :
        (c : Address) (fn : String) (args : List Address)
        → Does
            (try_invoke c fn args)
            r
            (H.answers r.outside c fn args)
            (record r { outside = H.after_call r.outside c fn args })
    unfolding try_invoke
    try_invoke-Does c fn args = record {
      ends = λ e s.
          let (answer, seen) = H.try_invoke_contract_lem e c fn args in
          let outside : (view e).outside ≡ r.outside = ap (λ v. v.outside) s.seen in
          let e' = (H.try_invoke_contract e c fn args).1 in
          (
            e',
            ap (done e') (answer ∙ ap (λ w. H.answers w c fn args) outside),
            record {
              seen =
                  seen
                  ∙ ap
                      (λ (v : View Address Outside). record v {
                        outside = H.after_call v.outside c fn args;
                      })
                      s.seen;
            },
          );
    }
