-- ===== src/Host/Simple.antt =====
-- A small host that runs: addresses are numbers, lifetimes are a table, and other contracts are a
-- function. The tests and the examples run the contract on it.
use native.Mathlib.Decide.{ℕ_discrete}
use safeguard_hooks.Prelude.{
  ℕ, ◌+◌, ◌≡◌, refl, Bool, true, false, Option, none, some, List, [], ◌∷◌, ◌++◌, String, ltb,
  is_some, same_self, if◌then◌else◌,
}
use safeguard_hooks.Host.{Host, Answer, View, put}
use safeguard_hooks.Storage.Keys.{DataKey, key_eq}

-- Who signs, what other contracts answer, and how many calls they have seen.
pub record World : Type 0 where
  pub signs : ℕ → Bool
  pub says : ℕ → String → List ℕ → Answer
  pub calls : ℕ

pub record Ledger : Type 0 where
  pub view : View ℕ World
  pub ttls : DataKey ℕ → ℕ

pub key_eq_self : {A : Type 0} (d : Discrete A) (k : DataKey A) → key_eq d k k ≡ true
key_eq_self d DataKey.admin = refl
key_eq_self d DataKey.config = refl
key_eq_self d DataKey.config_version = refl
key_eq_self d DataKey.version = refl
key_eq_self d (DataKey.token_binding t) = same_self d t
key_eq_self d (DataKey.freeze t a) = rw (same_self d t, same_self d a) refl

abbrev signed_by : Ledger → Bool → Option Ledger
signed_by e true = some e
signed_by e false = none

abbrev extended : (DataKey ℕ → ℕ) → DataKey ℕ → ℕ → ℕ → DataKey ℕ → ℕ
extended ttls k threshold extend_to j =
    if key_eq ℕ_discrete k j then (if ltb (ttls k) threshold then extend_to else ttls k) else ttls j

instance abbrev pub Simple : Host
Simple = record {
  Address = ℕ;
  Address-discrete = ℕ_discrete;
  Env = Ledger;
  Outside = World;
  view = λ e. e.view;
  signed = λ w a. w.signs a;
  after_auth = λ w a. w;
  answers = λ w c fn args. w.says c fn args;
  after_call = λ w c fn args. record w { calls = w.calls + 1 };
  ttl = λ e k. e.ttls k;
  instance_has = λ e k. is_some (e.view.instances k);
  persistent_has = λ e k. is_some (e.view.persistents k);
  instance_get = λ e k. e.view.instances k;
  persistent_get = λ e k. e.view.persistents k;
  instance_set = λ e k v. record e {
    view = record (e.view) { instances = put ℕ_discrete e.view.instances k (some v) };
  };
  persistent_set = λ e k v. record e {
    view = record (e.view) { persistents = put ℕ_discrete e.view.persistents k (some v) };
  };
  persistent_remove = λ e k. record e {
    view = record (e.view) { persistents = put ℕ_discrete e.view.persistents k none };
  };
  extend_ttl = λ e k threshold extend_to. record e { ttls = extended e.ttls k threshold extend_to };
  require_auth = λ e a. signed_by e (e.view.outside.signs a);
  publish = λ e ev. record e { view = record (e.view) { events = e.view.events ++ ev ∷ [] } };
  try_invoke_contract = λ e c fn args. (
    e.view.outside.says c fn args,
    record e {
      view = record (e.view) {
        outside = record (e.view.outside) { calls = e.view.outside.calls + 1 };
      };
    },
  );
  instance_has_lem = λ e k. refl;
  instance_get_lem = λ e k. refl;
  persistent_has_lem = λ e k. refl;
  persistent_get_lem = λ e k. refl;
  view-instance_set = λ e k v. refl;
  view-persistent_set = λ e k v. refl;
  view-persistent_remove = λ e k. refl;
  view-extend_ttl = λ e k threshold extend_to. refl;
  ttl-extend_ttl = λ e k threshold extend_to h. rw (key_eq_self ℕ_discrete k) refl;
  require_auth_signed = λ e a h. (e, rw h refl, refl);
  require_auth_unsigned = λ e a h. rw h refl;
  view-publish = λ e ev. refl;
  try_invoke_contract_lem = λ e c fn args. (refl, refl);
}
