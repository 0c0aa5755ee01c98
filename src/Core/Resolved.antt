-- ===== src/Core/Resolved.antt =====
-- Where the policy of a request comes from.
use kova_gpt_models.Common.{
  codes, split_on, ◌≡◌, arith, String, Bool, true, false, Option, some, none, [], ◌∷◌, Result, ok,
  value_error, guard, or_fail, ◌>>=◌, ◌>>◌, if◌then◌else◌, Result-cases, Bool-cases, ◌⊎◌, inl, inr,
}
use kova_gpt_models.Router.Policy.{RoutePolicy, Request, field, has_keys, resolve_route}
use kova_gpt_models.Router.Resolve.{Fits, resolve_route-Fits}
use kova_gpt_models.Core.Request.{
  is_canonical, has_route_id, canonical_request, resolve_route_id, requested_policy,
}

resolve_route_id-route :
    (id : String) (p : RoutePolicy)
    → resolve_route_id id ≡ ok p
    → (r : Request) × (resolve_route r ≡ ok p)
unfolding resolve_route_id
resolve_route_id-route id p h = elim (Bool-cases (is_canonical id)) [
  | inl e ↦ elim (Result-cases (canonical_request (split_on b':' (codes id)))) [
    | inl (r, found) ↦ (r, ground arith)
    | inr (x, refused) ↦ absurd (ground arith)
  ]
  | inr e ↦ (("surface", "chat") ∷ ("route_id", id) ∷ [], ground arith)
]

-- The branch of a request that has a route id.
by_route_id :
    (keys : Bool) (named : Option String) (p : RoutePolicy)
    → (guard keys value_error >> (or_fail named value_error >>= resolve_route_id)) ≡ ok p
    → (r : Request) × (resolve_route r ≡ ok p)
by_route_id true (some id) p h = resolve_route_id-route id p h
by_route_id true none p h = absurd (ground arith)
by_route_id false named p h = absurd (ground arith)

-- The other branch.
by_family :
    (keys : Bool) (fields : Request) (p : RoutePolicy)
    → (guard keys value_error >> resolve_route fields) ≡ ok p
    → (r : Request) × (resolve_route r ≡ ok p)
by_family true fields p h = (fields, h)
by_family false fields p h = absurd (ground arith)

by_branch :
    (branch : Bool) {x y : Result RoutePolicy} (p : RoutePolicy)
    → (if branch then x else y) ≡ ok p
    → (x ≡ ok p) ⊎ (y ≡ ok p)
by_branch true p h = inl h
by_branch false p h = inr h

pub requested_policy-route :
    (fields : Request) (p : RoutePolicy)
    → requested_policy fields ≡ ok p
    → (r : Request) × (resolve_route r ≡ ok p)
unfolding requested_policy
requested_policy-route fields p h = elim (by_branch (has_route_id fields) p h) [
  | inl a ↦ by_route_id (has_keys ("route_id" ∷ []) fields) (field "route_id" fields) p a
  | inr b ↦ by_family (has_keys ("surface" ∷ "family" ∷ "effort" ∷ []) fields) fields p b
]

-- A policy that is resolved for a Core or an Ultra request fits its route.
pub requested_policy-Fits :
    (fields : Request) (p : RoutePolicy) → requested_policy fields ≡ ok p → Fits p
requested_policy-Fits fields p h =
    let (r, resolved) = requested_policy-route fields p h in resolve_route-Fits r p resolved
