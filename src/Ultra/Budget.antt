-- ===== src/Ultra/Budget.antt =====
-- The token budget of an Ultra plan: what the operations of an accepted plan reserve.
use kova_gpt_models.Common.{
  ℕ, ◌+◌, ◌-◌, ◌*◌, ◌/◌, ◌≤◌, ◌≡◌, min, true, List, [], ◌∷◌, map, all, length, All, ltb, ok, arith,
  refl, ◌<◌,
}
use kova_gpt_models.Router.Models.{native_context_tokens}
use kova_gpt_models.Router.Policy.{runtime_profile}
use kova_gpt_models.Router.Routes.{ultra}
use kova_gpt_models.Ultra.Plan.{
  Spec, stage_share, min_share, unit_count, fixed_tokens, per_operation, UltraOperation,
  operation_of, reservation, reserved_total, allocate,
}
use native.Mathlib.Nat.{div-mul-le_self, mul-le-mul_right, le_trans, div-le_self}

reserved_total-operations :
    (per : ℕ) (ss : List Spec)
    → reserved_total (map (operation_of per) ss) ≡ fixed_tokens ss + per * unit_count ss
reserved_total-operations per [] = omega arith
reserved_total-operations per (s ∷ ss) = ground (arith, reserved_total-operations per ss)

min_share_le : (n : ℕ) (ss : List Spec) → min_share n ss ≤ n
min_share_le n [] = omega arith
min_share_le n (s ∷ ss) = ground (arith, min_share_le n ss)

min_share-All : (k n : ℕ) (ss : List Spec) → k ≤ min_share n ss → All (λ s. k ≤ stage_share s) ss
min_share-All k n [] h = tt
min_share-All k n (s ∷ ss) h = (ground arith, min_share-All k n ss (ground arith))

share_fits : (n m k : ℕ) → k ≤ n / m → k * m ≤ n
share_fits n m k h = le_trans (mul-le-mul_right m h) (div-mul-le_self n m)

reservation_fits :
    (per : ℕ) (s : Spec)
    → 0 < per
    → per ≤ stage_share s
    → reservation (operation_of per s) ≤ native_context_tokens
reservation_fits per s p h =
    ground
      (arith, share_fits (native_context_tokens - s.template_tokens) (1 + length s.artifacts) per h)

-- What every operation of a plan with this much for each output keeps to.
pub record Bounded (per : ℕ) (o : UltraOperation) : Type 0 where
  pub window : reservation o ≤ native_context_tokens
  pub output : o.maximum_output_tokens ≡ per

operations-Bounded :
    (per : ℕ) (ss : List Spec)
    → 0 < per
    → All (λ s. per ≤ stage_share s) ss
    → All (Bounded per) (map (operation_of per) ss)
operations-Bounded per [] p h = tt
operations-Bounded per (s ∷ ss) p (h, hs) =
    (record { window = reservation_fits per s p h; output = refl }, operations-Bounded per ss p hs)

below_both : (n a b : ℕ) → n ≤ min a b → (n ≤ a) × (n ≤ b)
below_both n a b h = (omega arith, omega arith)

per_operation_le :
    (total : ℕ) (ss : List Spec)
    → (per_operation total ss ≤ (total - fixed_tokens ss) / unit_count ss)
      × (per_operation total ss ≤ (runtime_profile ultra).profile_output_tokens)
unfolding per_operation
per_operation_le total ss = below_both _ _ _ (min_share_le _ ss)

per_operation-All :
    (total : ℕ) (ss : List Spec) → All (λ s. per_operation total ss ≤ stage_share s) ss
unfolding per_operation
per_operation-All total ss =
    min_share-All (per_operation total ss)
      (min ((total - fixed_tokens ss) / unit_count ss)
        (runtime_profile ultra).profile_output_tokens)
      ss (omega arith)

module _ (total : ℕ) (ss : List Spec) where
  reserved_total_fits :
      512 ≤ per_operation total ss
      → reserved_total (map (operation_of (per_operation total ss)) ss) ≤ total
  reserved_total_fits h =
      let share = (per_operation_le total ss).0 in
      let fits =
        share_fits (total - fixed_tokens ss) (unit_count ss) (per_operation total ss) share in
      let room = le_trans share (div-le_self (total - fixed_tokens ss) (unit_count ss)) in
      ground (arith, reserved_total-operations (per_operation total ss) ss)

  allocate_outcome :
      (ops : List UltraOperation)
      → allocate total ss ≡ ok ops
      → (ops ≡ map (operation_of (per_operation total ss)) ss) × (512 ≤ per_operation total ss)
  unfolding allocate
  allocate_outcome ops h = (ground arith, ground arith)

  -- If every template has a token and the share of an operation is 512 tokens or more, then the
  -- allocation succeeds with that share for each stage: its last check, on the sum of what the
  -- operations reserve, refuses no such plan.
  pub allocate_accepts :
      all (λ s. ltb 0 s.template_tokens) ss ≡ true
      → 512 ≤ per_operation total ss
      → allocate total ss ≡ ok (map (operation_of (per_operation total ss)) ss)
  unfolding allocate
  allocate_accepts h k = let fits = reserved_total_fits k in ground arith

  -- The operations of an accepted allocation reserve at most the admitted tokens, have the same
  -- output bound, between 512 tokens and the bound of the Ultra profile, and each of them fits with
  -- its input into the native context.
  pub allocate_bounds :
      (ops : List UltraOperation)
      → allocate total ss ≡ ok ops
      → (reserved_total ops ≤ total)
        × (512 ≤ per_operation total ss)
        × (per_operation total ss ≤ (runtime_profile ultra).profile_output_tokens)
        × All (Bounded (per_operation total ss)) ops
  unfolding allocate
  allocate_bounds ops h =
      let (same, large) = allocate_outcome ops h in
      rw same (
        reserved_total_fits large,
        large,
        (per_operation_le total ss).1,
        operations-Bounded (per_operation total ss) ss (omega arith) (per_operation-All total ss),
      )
