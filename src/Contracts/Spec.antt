-- ===== src/Contracts/Spec.antt =====
-- `ExecutionLimits`, `Stage` and the validation of `ExecutionSpec` (execution/contracts.py).
-- The snapshot is the decoded value of the canonical JSON bytes: the encoding and SHA-256 come from
-- the standard library, so a spec carries the digest of its bytes as `fingerprint`. The stage
-- timeout, a float of seconds, is counted in microseconds.
use kova_gpt_models.Common.{
  ℕ, ◌+◌, String, Bool, ◌&&◌, Option, List, leb, ltb, Result, execution_error, guard, ◌>>◌,
}
use kova_gpt_models.Router.Routes.{Route}

-- 2**53 - 1
abbrev pub max_integer : ℕ
max_integer = 9007199254740991

-- positive_integer
abbrev pub is_positive : ℕ → ℕ → Bool
is_positive n top = ltb 0 n && leb n top

pub record ExecutionLimits : Type 0 where
  pub deadline_unix_ms : ℕ
  pub token_limit : ℕ
  pub cost_limit_microusd : ℕ
  pub max_parallel : ℕ
  pub stage_timeout_us : ℕ

-- `ExecutionLimits.__post_init__`
unfoldable pub check_limits : ExecutionLimits → Result (Unit {0})
check_limits l = do
  guard (is_positive l.deadline_unix_ms max_integer) execution_error
  guard (is_positive l.token_limit max_integer) execution_error
  guard (is_positive l.cost_limit_microusd max_integer) execution_error
  guard (is_positive l.max_parallel 5) execution_error
  guard (ltb 0 l.stage_timeout_us && ltb l.stage_timeout_us 240000000) execution_error

pub record Stage : Type 0 where
  pub id : String
  pub dependencies : List String
  pub maximum_input_tokens : ℕ
  pub maximum_output_tokens : ℕ
  pub cost_cap_microusd : ℕ
  pub public : Bool
  pub activity : Bool
  pub condition : Option String

-- `Stage.token_reservation`
abbrev pub token_reservation : Stage → ℕ
token_reservation s = s.maximum_input_tokens + s.maximum_output_tokens

pub data Engine : Type 0 where
  kova_core kova_ultra : Engine

-- What the snapshot reads of an operation of the source plan.
pub record Operation : Type 0 where
  pub op_id : String
  pub depends_on : List String
  pub maximum_input_tokens : ℕ
  pub maximum_output_tokens : ℕ
  pub public_output : Bool
  pub activity_event_allowed : Bool
  pub op_condition : Option String
  pub maximum_rounds : ℕ

pub record Plan : Type 0 where
  pub route : Route
  pub production_ready : Bool
  pub endpoint_deployed : Bool
  pub engine : Engine
  pub candidate_model : String
  pub candidate_revision : String
  pub model_selection_required : Bool
  pub operations : List Operation

pub record RuntimeIdentity : Type 0 where
  pub model : String
  pub model_revision : String
  pub adapter_sha256 : String
  pub adapter_bundle_sha256 : String
  pub context_tokens : ℕ

pub record ExecutionSpec : Type 0 where
  pub fingerprint : String
  pub encoded_bytes : ℕ
  pub schema_version : ℕ
  pub plan : Plan
  pub limits : ExecutionLimits
  pub stages : List Stage
  pub runtime_identity : RuntimeIdentity
