-- ===== src/Ai.antt =====
-- The prompts of Backend/src/ai: ai.service.ts, quota/quota.service.ts, cache/ai-cache.service.ts and
-- providers. ai.module.ts provides no Redis client, so the cache is the Map of the process. SHA-256
-- and the text of a month are parameters, and so is what the HTTP client gets; times are in
-- milliseconds.
pub mod Circuit
pub mod Answers
pub mod Usage
mod Tests
use Prim.Native.String.{String, ◌++◌}
use xlm_pay.Base.{
  ℕ, ◌+◌, ◌-◌, Bool, true, false, Option, none, some, List, [], ◌∷◌, get_or, leb, str_eq,
  if◌then◌else◌,
}

-- A Map with texts as keys.
abbrev pub get_key {ℓ} : {X : Type ℓ} → String → List (String × X) → Option X
get_key k [] = none
get_key k ((j, x) ∷ m) = let rest = get_key k m in if str_eq j k then some x else rest

-- `|| null`: an empty text is none.
abbrev pub unless_empty : Option String → Option String
unless_empty none = none
unless_empty (some v) = if str_eq v "" then none else some v

pub data CircuitState : Type 0 where
  closed : CircuitState
  open_ : CircuitState
  half_open : CircuitState

pub record CircuitBreakerState : Type 0 where
  pub failures : ℕ
  pub opened_at : Option ℕ
  pub state : CircuitState

pub record QuotaRecord : Type 0 where
  pub request_count : ℕ
  pub token_count : ℕ

pub record Services : Type 0 where
  pub cache : List (String × String)
  pub quotas : List (String × QuotaRecord)
  pub cb : CircuitBreakerState

pub record Texts : Type 0 where
  pub sha256 : String → String
  pub month : ℕ → String

pub record Completion : Type 0 where
  pub response : String
  pub tokens_used : ℕ

-- What the HTTP client gets: an error, an answer without a message, or a message and, where the
-- usage is told, its tokens.
pub data Reply : Type 0 where
  failed : Reply
  malformed : Reply
  completed : String → Option ℕ → Reply

-- The circuit of openai.provider.ts. `none` stands for `Circuit breaker is open`.
unfoldable pub check_circuit_in :
    CircuitState → ℕ → CircuitBreakerState → Option CircuitBreakerState
check_circuit_in closed now b = some b
check_circuit_in half_open now b = some b
check_circuit_in open_ now b =
    if leb 60000 (now - get_or b.opened_at 0) then some (record b { state = half_open }) else none

unfoldable pub check_circuit : ℕ → CircuitBreakerState → Option CircuitBreakerState
check_circuit now b = check_circuit_in b.state now b

unfoldable pub record_success : CircuitBreakerState → CircuitBreakerState
record_success b = record { failures = 0; opened_at = none; state = closed }

unfoldable pub record_failure : ℕ → CircuitBreakerState → CircuitBreakerState
record_failure now b =
    if leb 5 (b.failures + 1)
    then record { failures = b.failures + 1; opened_at = some now; state = open_ }
    else record b { failures = b.failures + 1 }

-- The times at which a request comes to a clock: the quota's check, the circuit's, a failure, and
-- the quota's record.
pub record Request : Type 0 where
  pub prompt : String
  pub user_id : Option String
  pub reply : Reply
  pub asserted : ℕ
  pub checked : ℕ
  pub failed_at : ℕ
  pub recorded : ℕ

unfoldable pub receive : Reply → ℕ → CircuitBreakerState → Option Completion × CircuitBreakerState
receive failed now b = (none, record_failure now b)
receive malformed now b = (none, record_failure now (record_success b))
receive (completed text tokens) now b =
    (some record { response = text; tokens_used = get_or tokens 0 }, record_success b)

unfoldable pub receive_if :
    Option CircuitBreakerState
    → Reply
    → ℕ
    → CircuitBreakerState
    → Option Completion × CircuitBreakerState
receive_if none reply now b = (none, b)
receive_if (some checked) reply now b = receive reply now checked

-- OpenAiProvider.generate, where no other call comes between its check of the circuit and what it
-- records; `none` is an error that is thrown.
unfoldable pub generate :
    Reply → (checked failed_at : ℕ) → CircuitBreakerState → Option Completion × CircuitBreakerState
generate reply checked failed_at b = receive_if (check_circuit checked b) reply failed_at b

abbrev pub unavailable : String
unavailable = "AI service is temporarily unavailable. Please try again later."

module _ (T : Texts) where
  unfoldable pub build_key : (input model : String) → String
  build_key input model = "ai:" ++ (model ++ (":" ++ T.sha256 input))

  unfoldable pub cached : (input model : String) → List (String × String) → Option String
  cached input model m = unless_empty (get_key (build_key input model) m)

  -- The cache, or the static answer. It comes back from a failure of the primary provider.
  unfoldable pub fall_back : Option String → Completion
  fall_back (some text) = record { response = text; tokens_used = 0 }
  fall_back none = record { response = unavailable; tokens_used = 0 }

  unfoldable pub completion_or : Option Completion → String → List (String × String) → Completion
  completion_or (some c) prompt m = c
  completion_or none prompt m = fall_back (cached prompt "fallback" m)

  unfoldable pub quota_key : String → ℕ → String
  quota_key user_id now = user_id ++ (":" ++ T.month now)

  abbrev pub no_usage : QuotaRecord
  no_usage = record { request_count = 0; token_count = 0 }

  abbrev pub usage : String → List (String × QuotaRecord) → QuotaRecord
  usage k m = get_or (get_key k m) no_usage

  -- False stands for ForbiddenException, QuotaExceeded.
  unfoldable pub assert_quota : String → ℕ → List (String × QuotaRecord) → Bool
  assert_quota user_id now m =
      if leb 1000 (usage (quota_key user_id now) m).request_count then false else true

  unfoldable pub record_usage :
      String → (tokens now : ℕ) → List (String × QuotaRecord) → List (String × QuotaRecord)
  record_usage user_id tokens now m =
      let existing : QuotaRecord = usage (quota_key user_id now) m in
      (
        quota_key user_id now,
        record {
          request_count = existing.request_count + 1;
          token_count = existing.token_count + tokens;
        },
      )
      ∷ m

  -- The two calls under `if (dto.userId)`.
  unfoldable pub assert_user : Option String → ℕ → List (String × QuotaRecord) → Bool
  assert_user none now m = true
  assert_user (some u) now m = if str_eq u "" then true else assert_quota u now m

  unfoldable pub record_user :
      Option String → (tokens now : ℕ) → List (String × QuotaRecord) → List (String × QuotaRecord)
  record_user none tokens now m = m
  record_user (some u) tokens now m = if str_eq u "" then m else record_usage u tokens now m

  pub data Answer : Type 0 where
    forbidden : Answer
    answered : String → (cached : Bool) → Answer

  -- A fresh answer, stored and counted.
  unfoldable pub store_answer : Request → Completion → CircuitBreakerState → Services → Services
  store_answer r c cb s = record {
    cache = (build_key r.prompt "gpt-4", c.response) ∷ s.cache;
    quotas = record_user r.user_id c.tokens_used r.recorded s.quotas;
    cb = cb;
  }

  unfoldable pub answer_fresh : Request → Services → Answer × Services
  answer_fresh r s =
      let (got, cb) = generate r.reply r.checked r.failed_at s.cb in
      let c : Completion = completion_or got r.prompt s.cache in
      (answered c.response false, store_answer r c cb s)

  unfoldable pub answer_prompt : Option String → Request → Services → Answer × Services
  answer_prompt (some text) r s = (answered text true, s)
  answer_prompt none r s = answer_fresh r s

  -- AiService.handlePrompt with FallbackProvider as its provider, which throws nothing here, so that
  -- the branch of the degraded answer is not taken.
  unfoldable pub handle_prompt : Request → Services → Answer × Services
  handle_prompt r s =
      if assert_user r.user_id r.asserted s.quotas
      then answer_prompt (cached r.prompt "gpt-4" s.cache) r s
      else (forbidden, s)

  unfoldable pub handle_prompts : List Request → Services → Services
  handle_prompts [] s = s
  handle_prompts (r ∷ rs) s = handle_prompts rs (handle_prompt r s).1
