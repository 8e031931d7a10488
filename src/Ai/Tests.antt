-- ===== src/Ai/Tests.antt =====
-- Runs of Backend/src/ai whose requests to OpenAI fail, and then succeed.
use xlm_pay.Base.{ℕ, String, ◌+◌, ◌≡◌, ◌≤◌, refl, true, none, some, List, [], ◌∷◌, arith}
use xlm_pay.Ai.{
  record_failure, Texts, record_usage, quota_key, Request, Reply, failed, completed, Services,
  answered, closed, handle_prompt, handle_prompts, usage, assert_user, assert_quota, cached,
  build_key, answer_prompt, answer_fresh, store_answer, record_user, completion_or, generate,
  receive_if, receive, check_circuit, check_circuit_in, unavailable,
}
use xlm_pay.Ai.Circuit.{
  Calls, Steps, begins, fails, done, begin_call, begin_checked, fail_call, sent-closed,
}
use xlm_pay.Ai.Answers.{handle_prompt-again, handle_prompt-unavailable}
use xlm_pay.Ai.Usage.{no_requests, request, handle_prompts-Within}

abbrev texts : Texts
texts = record { sha256 = λ s. s; month = λ t. "2026-01" }

abbrev started : Services
started = record {
  cache = [];
  quotas = [];
  cb = record { failures = 0; opened_at = none; state = closed };
}

abbrev ask : String → Reply → ℕ → Request
ask prompt reply now = record {
  prompt = prompt;
  user_id = some "ada";
  reply = reply;
  asserted = now;
  checked = now;
  failed_at = now + 500;
  recorded = now + 500;
}

abbrev refused : Request
refused = ask "What is XLM?" failed 1000

abbrev well_answered : Request
well_answered = ask "What is XLM?" (completed "Money." none) 1000

abbrev answered_later : Request
answered_later = ask "What is XLM?" (completed "A coin." none) 9000

abbrev between : List Request
between = ask "What is a wallet?" (completed "A key." (some 12)) 5000 ∷ []

abbrev idle : Calls
idle = record {
  cb = record { failures = 4; opened_at = none; state = closed };
  in_flight = 0;
  sent = 0;
}

-- Two calls are sent before either fails; the next one is not sent.
abbrev overlapping : Calls
overlapping =
    begin_call 3500 (fail_call 3000 (fail_call 2500 (begin_call 2000 (begin_call 1000 idle))))

overlapping-Steps : Steps 2500 2 idle overlapping
unfolding begin_call begin_checked fail_call check_circuit check_circuit_in receive record_failure
overlapping-Steps = begins 1000 (omega arith) (omega arith) (
    begins 2000 (omega arith) (omega arith) (
      fails 2500 (omega arith) (omega arith) (
        fails 3000 (omega arith) (omega arith)
          (begins 3500 (omega arith) (omega arith) (done overlapping)))))

sent-closed_example : overlapping.sent + 4 ≤ 4 + 2
sent-closed_example = sent-closed 2500 2 4 none overlapping (omega arith) overlapping-Steps

handle_prompt-unavailable_example :
    (handle_prompt texts answered_later
      (handle_prompts texts between (handle_prompt texts refused started).1)).0
    ≡ answered unavailable true
unfolding handle_prompt handle_prompts assert_user assert_quota cached answer_prompt answer_fresh
    store_answer record_user record_usage quota_key build_key
handle_prompt-unavailable_example =
    handle_prompt-unavailable texts refused answered_later between started refl refl refl refl refl
      refl

abbrev after_money : Services
after_money = handle_prompts texts between (handle_prompt texts well_answered started).1

handle_prompt-again_example :
    handle_prompt texts answered_later after_money ≡ (answered "Money." true, after_money)
unfolding handle_prompt handle_prompts assert_user assert_quota cached answer_prompt answer_fresh
    store_answer record_user record_usage quota_key build_key completion_or generate receive_if
    check_circuit check_circuit_in receive
handle_prompt-again_example =
    handle_prompt-again texts well_answered answered_later between started "Money." (λ e. cc e) refl
      refl refl

handle_prompts-Within_example :
    (usage texts "ada:2026-01"
      (handle_prompts texts (refused ∷ between) started).quotas).request_count
    ≤ 1000
handle_prompts-Within_example =
    handle_prompts-Within texts (refused ∷ between) started
      (request refl (request refl no_requests)) (λ k. omega arith) "ada:2026-01"
