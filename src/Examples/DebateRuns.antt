-- ===== src/Examples/DebateRuns.antt =====
-- A conversation and a judged disagreement, and the theorems on them applied.
use kova_gpt_models.Common.{
  ℕ, ◌≡◌, refl, String, codes, str_eq, true, Option, some, List, [], ◌∷◌, any, find, ok, err,
  value_error, if◌then◌else◌,
}
use kova_gpt_models.Core.Messages.{user, assistant, Message}
use kova_gpt_models.Ultra.Conversation.{
  validated_conversation, is_conversation, validated_conversation-is_conversation,
}
use kova_gpt_models.Ultra.Debate.{
  load, Disagreement, Judgment, check_summary, is_disagreement_id, check_entry, check_entries,
  validate_disagreements, judge_requires_debate, cites_specialists, judge_requires_debate-cites,
}

abbrev turns : List Message
turns =
    record { role = user; content = codes "Compare them." }
    ∷ record { role = assistant; content = codes "How?" }
    ∷ record { role = user; content = codes "By cost." }
    ∷ []

validated_conversation-is_conversation_example :
    validated_conversation turns ≡ (if is_conversation turns then ok turns else err value_error)
validated_conversation-is_conversation_example = validated_conversation-is_conversation turns

abbrev conflict : Disagreement
conflict = record {
  disagreement_id = "d1";
  stage_refs = "specialist-1" ∷ "specialist-2" ∷ [];
  entry_summary = codes "Cost differs.";
}

abbrev verdict : Judgment
verdict = record {
  material = true;
  disagreement_refs = "d1" ∷ [];
  judge_summary = codes "The estimates conflict.";
}

abbrev specialist_ids : List String
specialist_ids = "specialist-1" ∷ "specialist-2" ∷ "specialist-3" ∷ []

abbrev parse_conflict : List ℕ → Option (List Disagreement)
parse_conflict text = some (conflict ∷ [])

abbrev parse_verdict : List ℕ → Option Judgment
parse_verdict text = some verdict

judge_requires_debate-cites_example :
    (entries : List Disagreement) × (j : Judgment) × (id : String) × (e : Disagreement)
    × (parse_conflict (codes "detected") ≡ some entries)
    × (parse_verdict (codes "judged") ≡ some j)
    × (any (str_eq id) j.disagreement_refs ≡ true)
    × (find (λ d. str_eq id d.disagreement_id) entries ≡ some e)
    × (cites_specialists specialist_ids e ≡ true)
unfolding load check_summary is_disagreement_id check_entry check_entries validate_disagreements
    judge_requires_debate
judge_requires_debate-cites_example =
    judge_requires_debate-cites parse_conflict parse_verdict (codes "judged") (codes "detected")
      specialist_ids refl
