-- ===== src/Ir/Policy.antt =====
-- crates/kwokka-ir/src/policy: the four policy payloads, read from a record's body.
use kwokka.Base.{ℕ, ◌==◌, List, length}
use kwokka.Ir.Fault.{truncated, Result, ok, err, ◌>>=◌, ◌>>◌, require}
use kwokka.Ir.Bytes.{read_u8, read_u32, read_u64}
use kwokka.Ir.Node.{NodeTag, policy_limiter, policy_timeout, policy_retry, policy_breaker}

pub record LimiterView : Type 0 where
  pub capacity : ℕ
  pub refill_tokens : ℕ
  pub refill_period_ns : ℕ

pub record TimeoutView : Type 0 where
  pub duration_ns : ℕ

pub record RetryView : Type 0 where
  pub max_attempts : ℕ
  pub backoff_kind : ℕ
  pub jitter_kind : ℕ
  pub base_delay_ns : ℕ
  pub max_delay_ns : ℕ

pub record BreakerView : Type 0 where
  pub window_kind : ℕ
  pub failure_rate_percent : ℕ
  pub minimum_calls : ℕ
  pub window_span : ℕ
  pub half_open_max_calls : ℕ
  pub half_open_success_threshold : ℕ
  pub open_duration_ns : ℕ

abbrev pub limiter_len : ℕ
limiter_len = 16

abbrev pub timeout_len : ℕ
timeout_len = 8

abbrev pub retry_len : ℕ
retry_len = 24

abbrev pub breaker_len : ℕ
breaker_len = 32

-- `LimiterView::parse`.
unfoldable pub parse_limiter : List ℕ → Result LimiterView
parse_limiter body = do
  require (length body == limiter_len) truncated
  capacity ← read_u32 body 0
  refill_tokens ← read_u32 body 4
  refill_period_ns ← read_u64 body 8
  ok (record {
    capacity = capacity;
    refill_tokens = refill_tokens;
    refill_period_ns = refill_period_ns;
  })

-- `TimeoutView::parse`.
unfoldable pub parse_timeout : List ℕ → Result TimeoutView
parse_timeout body = do
  require (length body == timeout_len) truncated
  duration_ns ← read_u64 body 0
  ok (record { duration_ns = duration_ns })

-- `RetryView::parse`.
unfoldable pub parse_retry : List ℕ → Result RetryView
parse_retry body = do
  require (length body == retry_len) truncated
  max_attempts ← read_u32 body 0
  backoff_kind ← read_u8 body 4
  jitter_kind ← read_u8 body 5
  base_delay_ns ← read_u64 body 8
  max_delay_ns ← read_u64 body 16
  ok (record {
    max_attempts = max_attempts;
    backoff_kind = backoff_kind;
    jitter_kind = jitter_kind;
    base_delay_ns = base_delay_ns;
    max_delay_ns = max_delay_ns;
  })

-- `BreakerView::parse`.
unfoldable pub parse_breaker : List ℕ → Result BreakerView
parse_breaker body = do
  require (length body == breaker_len) truncated
  window_kind ← read_u8 body 0
  failure_rate_percent ← read_u8 body 1
  minimum_calls ← read_u32 body 4
  window_span ← read_u64 body 8
  half_open_max_calls ← read_u32 body 16
  half_open_success_threshold ← read_u32 body 20
  open_duration_ns ← read_u64 body 24
  ok (record {
    window_kind = window_kind;
    failure_rate_percent = failure_rate_percent;
    minimum_calls = minimum_calls;
    window_span = window_span;
    half_open_max_calls = half_open_max_calls;
    half_open_success_threshold = half_open_success_threshold;
    open_duration_ns = open_duration_ns;
  })

pub data PolicyKind : Type 0 where
  limiter timeout retry breaker : PolicyKind

-- `PolicyKind::COUNT`.
abbrev pub policy_count : ℕ
policy_count = 4

-- `PolicyKind::node_tag`.
abbrev pub node_tag : PolicyKind → NodeTag
node_tag limiter = policy_limiter
node_tag timeout = policy_timeout
node_tag retry = policy_retry
node_tag breaker = policy_breaker

-- `PolicyKind::slot_field`.
abbrev pub slot_field : PolicyKind → ℕ
slot_field limiter = 0
slot_field timeout = 4
slot_field retry = 8
slot_field breaker = 12

-- `.map(drop)`.
abbrev pub discard {ℓ} : {A : Type ℓ} → Result A → Result (Unit {0})
discard (ok a) = ok tt
discard (err e) = err e

-- `PolicyKind::validate_body`.
unfoldable pub validate_body : PolicyKind → List ℕ → Result (Unit {0})
validate_body limiter body = discard (parse_limiter body)
validate_body timeout body = discard (parse_timeout body)
validate_body retry body = discard (parse_retry body)
validate_body breaker body = discard (parse_breaker body)
