-- ===== src/HookCore/Roles.antt =====
-- crates/hook-core/src/{party, operation, context, decision}.rs: which roles an operation has, and
-- how decisions chain.
use mathlib.Core.List.{Memᴰ}
use mathlib.Core.List
use safeguard_hooks.Prelude.{◌≡◌, ◌≢◌, ◌↔◌, refl, sym, true, false, ◌&&◌, [], ◌∷◌}
use safeguard_hooks.HookCore.Party.{PartyRole, account, from, to}
use safeguard_hooks.HookCore.Operation.{
  Operation, register, merge, transfer_from, parties, is_bilateral,
}
use safeguard_hooks.HookCore.Decision.{
  ComplianceDecision, allow, deny, is_allowed, and_then, reason,
}

not_in_one : (r : PartyRole) → account ≢ r → Memᴰ r (account ∷ []) → false ≡ true
not_in_one r ne m = absurd (ne (sym (List.Memᴰ.eq_of_singleton m)))

-- An operation is bilateral exactly when funds move between two ends: both a `from` and a `to` are
-- among its parties.
is_bilateral_iff :
    (op : Operation) → (is_bilateral op ≡ true) ↔ (Memᴰ from (parties op) × Memᴰ to (parties op))
unfolding is_bilateral parties
is_bilateral_iff register = (λ h. cc, λ h. not_in_one from (λ p. cc) h.0)
is_bilateral_iff merge = (λ h. cc, λ h. not_in_one from (λ p. cc) h.0)
is_bilateral_iff transfer_from =
    (λ _. (Memᴰ.tail (Memᴰ.head refl), Memᴰ.tail (Memᴰ.tail (Memᴰ.head refl))), λ _. refl)
is_bilateral_iff _ = (λ _. (Memᴰ.head refl, Memᴰ.tail (Memᴰ.head refl)), λ _. refl)

-- Chained decisions give the first reason there is, and so they allow when both allow.
pub reason-and_then :
    (d next : ComplianceDecision)
    → (is_allowed (and_then d next) ≡ (is_allowed d && is_allowed next))
      × (is_allowed d ≡ true → reason (and_then d next) ≡ reason next)
      × (is_allowed d ≡ false → reason (and_then d next) ≡ reason d)
unfolding is_allowed and_then reason
reason-and_then allow next = (refl, λ _. refl, λ h. cc)
reason-and_then (deny why) next = (refl, λ h. cc, λ _. refl)
