-- ===== src/Core/Admit/Ids.antt =====
-- The stage ids of a plan: identifiers, all different, at least one and at most sixteen.
use kova_gpt_models.Common.{
  ◌≡◌, refl, arith, String, str_eq, eq_iff, is_identifier, Bool, true, false, ◌&&◌, ◌||◌, not,
  Option, none, some, List, [], ◌∷◌, ◌++◌, map, all, length, leb,
}
use kova_gpt_models.Router.Routes.{light, instant_mode, Route, compat, chat, work}
use kova_gpt_models.Router.Policy.{Passes, chat_policy, work_effort}
use kova_gpt_models.Router.Resolve.{route_passes}
use kova_gpt_models.Contracts.Validate.{str_mem, all_distinct}
use kova_gpt_models.Core.Request.{stage_key, stages_of}

-- None of the ids is among those seen before it.
abbrev pub fresh : List String → List String → Bool
fresh seen [] = true
fresh seen (i ∷ is) = not (str_mem i seen) && fresh (i ∷ seen) is

abbrev pub good_ids : List String → Bool
good_ids is = (leb 1 (length is) && leb (length is) 16) && (all is_identifier is && fresh [] is)

abbrev good_passes : Option Passes → Bool
good_passes none = true
good_passes (some p) = good_ids (map stage_key (stages_of p))

pub route_passes-good : (r : Route) → good_passes (route_passes r) ≡ true
unfolding chat_policy work_effort stages_of stage_key is_identifier
route_passes-good (compat instant_mode) = refl
route_passes-good (compat _) = refl
route_passes-good (chat f light) = refl
route_passes-good (chat f _) = refl
route_passes-good (work f light) = refl
route_passes-good (work f _) = refl

pub mem-snoc :
    (y x : String) (ys : List String) → str_mem y (ys ++ x ∷ []) ≡ (str_mem y ys || str_eq y x)
mem-snoc y x [] = ground arith
mem-snoc y x (z ∷ ys) = ground (arith, mem-snoc y x ys)

pub strs_distinct-snoc :
    (x : String) (xs : List String)
    → all_distinct xs ≡ true
    → str_mem x xs ≡ false
    → all_distinct (xs ++ x ∷ []) ≡ true
strs_distinct-snoc x [] h k = refl
strs_distinct-snoc x (y ∷ ys) h k =
    ground (arith, mem-snoc y x ys, eq_iff x y, eq_iff y x, strs_distinct-snoc x ys)
