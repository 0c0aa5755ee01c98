-- ===== src/Ultra/Conversation.antt =====
-- ultra/conversation.py: the text history of an Ultra request.
use kova_gpt_models.Common.{
  ℕ, ◌+◌, ◌≤◌, ◌≡◌, refl, ap, ◌∙◌, arith, occurs, is_space, is_surrogate, Bool, true, false, ◌&&◌,
  not, List, [], ◌∷◌, all, any, length, sum_of, leb, Result, ok, err, value_error, guard, ◌>>◌,
  if◌then◌else◌, Bool-cases, inl, inr,
}
use kova_gpt_models.Core.Messages.{is_user, is_turn, Message, placeholder_prefix}

abbrev pub text_chars : Message → ℕ
text_chars m = length m.content

-- The loop over the messages; `total` has the characters of those before.
unfoldable pub check_turns : ℕ → List Message → Result (Unit {0})
check_turns total [] = ok tt
check_turns total (m ∷ ms) = do
  guard (is_turn m.role) value_error
  guard (leb (text_chars m) 250000) value_error
  guard (leb (total + text_chars m) 750000) value_error
  guard (not (occurs placeholder_prefix m.content)) value_error
  guard (not (any is_surrogate m.content)) value_error
  check_turns (total + text_chars m) ms

-- The last message is a user's, with text.
abbrev pub ends_with_task : List Message → Bool
ends_with_task [] = false
ends_with_task (m ∷ []) = is_user m.role && any (λ c. not (is_space c)) m.content
ends_with_task (m ∷ n ∷ ms) = ends_with_task (n ∷ ms)

-- validated_conversation
unfoldable pub validated_conversation : List Message → Result (List Message)
validated_conversation ms = do
  guard (leb 1 (length ms) && leb (length ms) 256) value_error
  check_turns 0 ms
  guard (ends_with_task ms) value_error
  ok ms

-- A turn that may stand in a conversation.
abbrev pub is_plain_turn : Message → Bool
is_plain_turn m =
    is_turn m.role
    && (leb (text_chars m) 250000
        && (not (occurs placeholder_prefix m.content) && not (any is_surrogate m.content)))

leb_above : (x y n : ℕ) → leb x n ≡ false → x ≤ y → leb y n ≡ false
leb_above x y n h le = ground arith

-- The checks of one turn and those of the others, when the running total is in its limit.
turn_within :
    (a b d e q : Bool)
    → (guard a value_error
        >> (guard b value_error
            >> (guard true value_error
                >> (guard d value_error >> (guard e value_error >> guard q value_error)))))
      ≡ guard ((a && (b && (d && e))) && q) value_error
turn_within a b d e q = ground arith

-- The same, when it is not: then the sum is not in the limit either.
turn_above :
    (a b d e q : Bool) (rest : Result (Unit {0}))
    → (guard a value_error
        >> (guard b value_error
            >> (guard false value_error >> (guard d value_error >> (guard e value_error >> rest)))))
      ≡ guard ((a && (b && (d && e))) && (q && false)) value_error
turn_above a b d e q rest = ground arith

and_assoc : (a b c : Bool) → (a && (b && c)) ≡ ((a && b) && c)
and_assoc a b c = ground arith

check_turns-all :
    (total : ℕ) (ms : List Message)
    → leb total 750000 ≡ true
    → check_turns total ms
      ≡ guard (all is_plain_turn ms && leb (total + sum_of text_chars ms) 750000) value_error
unfolding check_turns
check_turns-all total [] h = let same : total + 0 ≡ total = omega arith in rw (same, h) refl
check_turns-all total (m ∷ ms) h = elim (Bool-cases (leb (total + text_chars m) 750000)) [
  | inl within ↦
      let total' = total + text_chars m in
      let sums : total' + sum_of text_chars ms ≡ total + (text_chars m + sum_of text_chars ms) =
        omega arith in
      rw (within, check_turns-all total' ms within, sums)
        (turn_within (is_turn m.role) (leb (text_chars m) 250000)
            (not (occurs placeholder_prefix m.content)) (not (any is_surrogate m.content))
            (all is_plain_turn ms && leb (total + (text_chars m + sum_of text_chars ms)) 750000)
          ∙ ap (λ b. guard b value_error)
              (and_assoc (is_plain_turn m) (all is_plain_turn ms)
                (leb (total + (text_chars m + sum_of text_chars ms)) 750000)))
  | inr above ↦
      let over =
        leb_above (total + text_chars m) (total + (text_chars m + sum_of text_chars ms)) 750000
          above (omega arith) in
      rw (above, over)
        (turn_above (is_turn m.role) (leb (text_chars m) 250000)
            (not (occurs placeholder_prefix m.content)) (not (any is_surrogate m.content))
            (all is_plain_turn ms) (check_turns (total + text_chars m) ms)
          ∙ ap (λ b. guard b value_error)
              (and_assoc (is_plain_turn m) (all is_plain_turn ms) false))
]

-- What a conversation has to be.
abbrev pub is_conversation : List Message → Bool
is_conversation ms =
    (leb 1 (length ms) && leb (length ms) 256)
    && (all is_plain_turn ms && (leb (sum_of text_chars ms) 750000 && ends_with_task ms))

-- The check of a conversation, with its running total and its early exits, accepts exactly the lists
-- of 1 to 256 plain turns of at most 750000 characters together that end with a task of the user; it
-- gives them unchanged, and refuses every other list with a value error.
pub validated_conversation-is_conversation :
    (ms : List Message)
    → validated_conversation ms ≡ (if is_conversation ms then ok ms else err value_error)
unfolding validated_conversation
validated_conversation-is_conversation ms = ground (arith, check_turns-all 0 ms)
