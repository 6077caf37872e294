-- ===== src/ComplianceHooks/Audit/Replay.antt =====
-- The events of a deployed contract, replayed, give its admin, its configuration, how often that
-- changed, its bound tokens and its frozen accounts.
use safeguard_hooks.Prelude.{
  ◌+◌, ◌≡◌, refl, sym, ap, is_some, unwrap_or, List, [], ◌∷◌, ◌++◌, arith, subst,
}
use safeguard_hooks.Host.{Host}
use safeguard_hooks.Storage.Registry.{Shows}
use safeguard_hooks.Events.Kinds.{Event}
use safeguard_hooks.ComplianceHooks.{Reply}
use safeguard_hooks.ComplianceHooks.Transition.{State, Call}
use safeguard_hooks.ComplianceHooks.Effects.{
  Effect, keeps, initializes, configures, binds, unbinds, freezes, unfreezes,
}
use safeguard_hooks.ComplianceHooks.Audit.{
  Audited, blank, noted, replay_from, replay, replay_from-append, fresh, Reached, Reached-ind,
}

module _ ⦃H : Host⦄ where
  open H use {Address, Address-discrete, Env, Outside}

  -- What is rebuilt is what is stored.
  pub record Tells (s : Audited Address) (r : State) : Type 0 where
    pub admin : s.admin ≡ r.admin
    pub config : s.config ≡ r.config
    pub changes : s.changes ≡ unwrap_or r.config_version 0
    pub bound : (t : Address) → s.bound t ≡ is_some (r.binding t)
    pub frozen : (t a : Address) → s.frozen t a ≡ r.frozen t a

  abbrev pub Audits : State → Type 0
  Audits r = Tells (replay Address-discrete r.log) r

  audits_next :
      (l : List (Event Address)) (ev : Event Address) (r : State)
      → Tells (noted Address-discrete (replay Address-discrete l) ev) r
      → Tells (replay Address-discrete (l ++ ev ∷ [])) r
  audits_next l ev r h =
      subst (λ s. Tells s r) (sym (replay_from-append Address-discrete blank l ev)) h

  apart-Audits : (r : State) (w : Outside) → Audits r → Audits (record r { outside = w })
  apart-Audits r w h = record {
    admin = h.admin;
    config = h.config;
    changes = h.changes;
    bound = h.bound;
    frozen = h.frozen;
  }

  Audits-Effect :
      (r s : State) (c : Call Address) (reply : Reply) → Audits r → Effect r c reply s → Audits s
  Audits-Effect r _ c reply h (keeps w) = apart-Audits r w h
  Audits-Effect r _ c reply h (initializes missing signed) = audits_next r.log _ _ (record {
    admin = refl;
    config = h.config;
    changes = h.changes;
    bound = h.bound;
    frozen = h.frozen;
  })
  Audits-Effect r _ c reply h (configures x changed small) = audits_next r.log _ _ (record {
    admin = h.admin;
    config = refl;
    changes = ap (λ n. n + 1) h.changes;
    bound = h.bound;
    frozen = h.frozen;
  })
  Audits-Effect r _ c reply h (binds {token} x changed) = audits_next r.log _ _ (record {
    admin = h.admin;
    config = h.config;
    changes = h.changes;
    bound = λ t. ground (arith, h.bound t);
    frozen = h.frozen;
  })
  Audits-Effect r _ c reply h (unbinds {token} x bound) = audits_next r.log _ _ (record {
    admin = h.admin;
    config = h.config;
    changes = h.changes;
    bound = λ t. ground (arith, h.bound t);
    frozen = h.frozen;
  })
  Audits-Effect r _ c reply h (freezes {token} {account} x configured bound free) =
      audits_next r.log _ _ (record {
        admin = h.admin;
        config = h.config;
        changes = h.changes;
        bound = h.bound;
        frozen = λ t a. ground (arith, h.frozen t a);
      })
  Audits-Effect r _ c reply h (unfreezes {token} {account} x configured bound frozen) =
      audits_next r.log _ _ (record {
        admin = h.admin;
        config = h.config;
        changes = h.changes;
        bound = h.bound;
        frozen = λ t a. ground (arith, h.frozen t a);
      })

  fresh-Audits : (w : Outside) → Audits (fresh w)
  unfolding replay_from
  fresh-Audits w = record {
    admin = refl;
    config = refl;
    changes = refl;
    bound = λ _. refl;
    frozen = λ _ _. refl;
  }

  -- In every environment that a deployed contract reaches, replaying the events from the start
  -- rebuilds the stored admin, the stored configuration, the number of its changes, which tokens
  -- are bound and which accounts are frozen.
  pub Reached-Audits : (e : Env) → Reached e → (r : State) × Shows e r × Audits r
  Reached-Audits = Reached-ind Audits fresh-Audits apart-Audits Audits-Effect
