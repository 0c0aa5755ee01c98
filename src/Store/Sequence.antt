-- ===== src/Store/Sequence.antt =====
-- Events in the order of their numbers: what a page takes of them.
use kova_gpt_models.Common.{
  ℕ, zero, suc, min, ◌+◌, ◌-◌, ◌≤◌, ◌≡◌, refl, sym, ap, ◌∙◌, arith, true, List, [], ◌∷◌, ◌++◌, map,
  filter, take, drop, length, ltb, length-append,
}
use kova_gpt_models.Store.State.{Event}
use kova_gpt_models.Store.Events.{down_from}
use kova_gpt_models.Store.Replay.{oldest_first, consecutive, next_sequence}

consecutive-snoc :
    (a : ℕ) (es : List Event) (e : Event)
    → consecutive a es ≡ true
    → e.event_sequence ≡ suc (a + length es)
    → consecutive a (es ++ e ∷ []) ≡ true
consecutive-snoc a [] e h k = ground arith
consecutive-snoc a (x ∷ es) e h k = ground (arith, consecutive-snoc (suc a) es e)

pub length-oldest_first : (es : List Event) → length (oldest_first es) ≡ length es
length-oldest_first [] = refl
length-oldest_first (e ∷ es) =
    omega (arith, length-append (oldest_first es) (e ∷ []), length-oldest_first es)

pub length-down_from :
    (es : List Event) (n : ℕ) → map (λ e. e.event_sequence) es ≡ down_from n → length es ≡ n
length-down_from [] zero h = refl
length-down_from [] (suc n) h = absurd (ground arith)
length-down_from (e ∷ es) zero h = absurd (ground arith)
length-down_from (e ∷ es) (suc n) h = ap suc (length-down_from es n (ground arith))

pub oldest_first-consecutive :
    (es : List Event) (n : ℕ)
    → map (λ e. e.event_sequence) es ≡ down_from n
    → consecutive 0 (oldest_first es) ≡ true
oldest_first-consecutive [] n h = refl
oldest_first-consecutive (e ∷ es) zero h = absurd (ground arith)
oldest_first-consecutive (e ∷ es) (suc n) h =
    let newest : e.event_sequence ≡ suc n = ground arith in
    let others : map (λ x. x.event_sequence) es ≡ down_from n = ground arith in
    let size : length (oldest_first es) ≡ n =
      length-oldest_first es ∙ length-down_from es n others in
    consecutive-snoc 0 (oldest_first es) e (oldest_first-consecutive es n others) (omega arith)

filter_later :
    (es : List Event) (a c : ℕ)
    → consecutive a es ≡ true
    → c ≤ a
    → filter (λ e. ltb c e.event_sequence) es ≡ es
filter_later [] a c h le = refl
filter_later (e ∷ es) a c h le = ground (arith, filter_later es (suc a) c)

-- The rows after a cursor are what is left when so many are dropped.
pub filter-drop :
    (es : List Event) (a n c : ℕ)
    → consecutive a es ≡ true
    → c ≡ a + n
    → filter (λ e. ltb c e.event_sequence) es ≡ drop n es
filter-drop es a zero c h k = filter_later es a c h (omega arith)
filter-drop [] a (suc n) c h k = refl
filter-drop (e ∷ es) a (suc n) c h k = ground (arith, filter-drop es (suc a) n c)

pub drop-consecutive :
    (es : List Event) (a n c : ℕ)
    → consecutive a es ≡ true
    → n ≤ length es
    → c ≡ a + n
    → consecutive c (drop n es) ≡ true
drop-consecutive es a zero c h le k = let same : a ≡ c = omega arith in rw (sym same) h
drop-consecutive [] a (suc n) c h le k = refl
drop-consecutive (e ∷ es) a (suc n) c h le k =
    drop-consecutive es (suc a) n c (ground arith) (omega arith) (omega arith)

pub take-consecutive :
    (es : List Event) (a n : ℕ) → consecutive a es ≡ true → consecutive a (take n es) ≡ true
take-consecutive es a zero h = refl
take-consecutive [] a (suc n) h = refl
take-consecutive (e ∷ es) a (suc n) h = ground (arith, take-consecutive es (suc a) n)

pub next_sequence-length :
    (es : List Event) (a : ℕ) → consecutive a es ≡ true → next_sequence a es ≡ a + length es
next_sequence-length [] a h = omega arith
next_sequence-length (e ∷ es) a h =
    let first : e.event_sequence ≡ suc a = ground arith in
    rw first (next_sequence-length es (suc a) (ground arith) ∙ omega arith)

pub length-take : (es : List Event) (n : ℕ) → length (take n es) ≡ min (length es) n
length-take es zero = omega arith
length-take [] (suc n) = omega arith
length-take (e ∷ es) (suc n) = omega (arith, length-take es n)

pub length-drop : (es : List Event) (n : ℕ) → length (drop n es) ≡ length es - n
length-drop es zero = omega arith
length-drop [] (suc n) = omega arith
length-drop (e ∷ es) (suc n) = omega (arith, length-drop es n)

take-nil : (n : ℕ) → take {A = Event} n [] ≡ []
take-nil zero = refl
take-nil (suc n) = refl

drop-nil : (n : ℕ) → drop {A = Event} n [] ≡ []
drop-nil zero = refl
drop-nil (suc n) = refl

pub take_plus : (es : List Event) (m n : ℕ) → take (m + n) es ≡ take m es ++ take n (drop m es)
take_plus es zero n = ap (λ k. take k es) (omega arith)
take_plus [] (suc m) n = take-nil (suc m + n) ∙ sym (take-nil n)
take_plus (e ∷ es) (suc m) n =
    let next : suc m + n ≡ suc (m + n) = omega arith in
    ap (λ k. take k (e ∷ es)) next ∙ ap (λ l. e ∷ l) (take_plus es m n)

pub drop_plus : (es : List Event) (m n : ℕ) → drop n (drop m es) ≡ drop (m + n) es
drop_plus es zero n = ap (λ k. drop k es) (omega arith)
drop_plus [] (suc m) n = drop-nil n ∙ sym (drop-nil (suc m + n))
drop_plus (e ∷ es) (suc m) n =
    let next : suc (m + n) ≡ suc m + n = omega arith in
    drop_plus es m n ∙ ap (λ k. drop k (e ∷ es)) next

pub drop-min : (es : List Event) (n : ℕ) → drop n es ≡ drop (min n (length es)) es
drop-min es zero =
    let none_left : 0 ≡ min 0 (length es) = omega arith in ap (λ k. drop k es) none_left
drop-min [] (suc n) = sym (drop-nil (min (suc n) 0))
drop-min (e ∷ es) (suc n) =
    let next : suc (min n (length es)) ≡ min (suc n) (suc (length es)) = omega arith in
    drop-min es n ∙ ap (λ k. drop k (e ∷ es)) next
