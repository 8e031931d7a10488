-- ===== src/Ai/Answers.antt =====
-- What ai.service.ts answers to a prompt that it has answered before.
use Prim.Native.String.{String}
use xlm_pay.Base.{
  ℕ, ◌≡◌, ◌≢◌, refl, ap, true, false, Bool-cases, inl, inr, Option, none, some, List, [], ◌∷◌,
  str_eq, eq_iff,
}
use xlm_pay.Ai.{
  Texts, Request, Reply, failed, Services, Answer, forbidden, answered, cached, CircuitBreakerState,
  get_key, unless_empty, build_key, fall_back, completion_or, generate, receive, receive_if,
  check_circuit, store_answer, answer_fresh, answer_prompt, assert_user, handle_prompt,
  handle_prompts, unavailable,
}

unless_empty-given : (v : String) → v ≢ "" → unless_empty (some v) ≡ some v
unless_empty-given v h = elim (Bool-cases (str_eq v "")) [
  | inl e ↦ absurd (h ((eq_iff v "").0 e))
  | inr e ↦ rw e refl
]

receive_if-failed :
    (o : Option CircuitBreakerState) (reply : Reply) (t : ℕ) (b : CircuitBreakerState)
    → reply ≡ failed
    → (receive_if o reply t b).0 ≡ none
unfolding receive_if receive
receive_if-failed none reply t b e = refl
receive_if-failed (some c) reply t b e = rw e refl

generate-failed :
    (r : Request) (s : Services)
    → r.reply ≡ failed
    → (generate r.reply r.checked r.failed_at s.cb).0 ≡ none
unfolding generate
generate-failed r s = receive_if-failed (check_circuit r.checked s.cb) r.reply r.failed_at s.cb

module _ (T : Texts) where
  cached-set :
      (asked prompt v x : String) (m : List (String × String))
      → cached T prompt "gpt-4" m ≡ none
      → cached T asked "gpt-4" m ≡ some v
      → cached T asked "gpt-4" ((build_key T prompt "gpt-4", x) ∷ m) ≡ some v
  unfolding cached
  cached-set asked prompt v x m free there =
      elim (Bool-cases (str_eq (build_key T prompt "gpt-4") (build_key T asked "gpt-4"))) [
        | inl e ↦ absurd (cc (ap (λ k. unless_empty (get_key k m)) ((eq_iff _ _).0 e), free, there))
        | inr e ↦ rw e there
      ]

  cached-own :
      (prompt x : String) (m : List (String × String))
      → x ≢ ""
      → cached T prompt "gpt-4" ((build_key T prompt "gpt-4", x) ∷ m) ≡ some x
  unfolding cached
  cached-own prompt x m given =
      rw ((eq_iff (build_key T prompt "gpt-4") (build_key T prompt "gpt-4")).1 refl)
        (unless_empty-given x given)

  -- A stored answer is not written again.
  handle_prompt-keeps :
      (asked v : String) (r : Request) (s : Services)
      → cached T asked "gpt-4" s.cache ≡ some v
      → cached T asked "gpt-4" (handle_prompt T r s).1.cache ≡ some v
  unfolding handle_prompt answer_prompt answer_fresh store_answer
  handle_prompt-keeps asked v r s there =
      elim (Bool-cases (assert_user T r.user_id r.asserted s.quotas)) [
        | inl e ↦ rw e (by_cache (cached T r.prompt "gpt-4" s.cache) refl)
        | inr e ↦ rw e there
      ]
    where
      by_cache :
          (o : Option String)
          → cached T r.prompt "gpt-4" s.cache ≡ o
          → cached T asked "gpt-4" (answer_prompt T o r s).1.cache ≡ some v
      by_cache none e = cached-set asked r.prompt v _ s.cache e there
      by_cache (some text) e = there

  handle_prompts-keeps :
      (asked v : String) (rs : List Request) (s : Services)
      → cached T asked "gpt-4" s.cache ≡ some v
      → cached T asked "gpt-4" (handle_prompts T rs s).cache ≡ some v
  unfolding handle_prompts
  handle_prompts-keeps asked v [] s there = there
  handle_prompts-keeps asked v (r ∷ rs) s there =
      handle_prompts-keeps asked v rs _ (handle_prompt-keeps asked v r s there)

  abbrev text_of : Answer T → String
  text_of forbidden = ""
  text_of (answered v b) = v

  answer_prompt-stores :
      (o : Option String) (r : Request) (s : Services) (v : String)
      → v ≢ ""
      → (answer_prompt T o r s).0 ≡ answered v false
      → cached T r.prompt "gpt-4" (answer_prompt T o r s).1.cache ≡ some v
  unfolding answer_prompt answer_fresh store_answer completion_or
  answer_prompt-stores none r s v given e = rw here (cached-own r.prompt v s.cache given)
    where
      here :
          (completion_or T
            (generate r.reply r.checked r.failed_at s.cb).0
            r.prompt
            s.cache).response
          ≡ v
      here = ap text_of e
  answer_prompt-stores (some text) r s v given e = absurd cc

  handle_prompt-stores :
      (r : Request) (s : Services) (v : String)
      → v ≢ ""
      → (handle_prompt T r s).0 ≡ answered v false
      → cached T r.prompt "gpt-4" (handle_prompt T r s).1.cache ≡ some v
  unfolding handle_prompt
  handle_prompt-stores r s v given =
      elim (Bool-cases (assert_user T r.user_id r.asserted s.quotas)) [
        | inl e ↦ rw e (answer_prompt-stores (cached T r.prompt "gpt-4" s.cache) r s v given)
        | inr e ↦ rw e (λ h. absurd cc)
      ]

  handle_prompt-cached :
      (r : Request) (s : Services) (v : String)
      → cached T r.prompt "gpt-4" s.cache ≡ some v
      → assert_user T r.user_id r.asserted s.quotas ≡ true
      → handle_prompt T r s ≡ (answered v true, s)
  unfolding handle_prompt answer_prompt
  handle_prompt-cached r s v there admitted = rw (admitted, there) refl

  -- An answer that is not empty is given again to every later request with the same prompt that the
  -- quota admits, whatever other requests come between the two: nothing is sent for it, and
  -- nothing is counted.
  pub handle_prompt-again :
      (r q : Request) (rs : List Request) (s : Services) (v : String)
      → v ≢ ""
      → (handle_prompt T r s).0 ≡ answered v false
      → q.prompt ≡ r.prompt
      → assert_user T q.user_id q.asserted (handle_prompts T rs (handle_prompt T r s).1).quotas
        ≡ true
      → handle_prompt T q (handle_prompts T rs (handle_prompt T r s).1)
        ≡ (answered v true, handle_prompts T rs (handle_prompt T r s).1)
  handle_prompt-again r q rs s v given e same =
      handle_prompt-cached q _ v
        (rw same (handle_prompts-keeps r.prompt v rs _ (handle_prompt-stores r s v given e)))

  -- The message that stands for a failure of OpenAI is stored like an answer. After a request that
  -- the quota admits fails at OpenAI, and no answer but an empty one was stored for its prompt, as
  -- its own or as a fallback, every later request with that prompt that the quota admits gets the
  -- message as a cached answer, whatever OpenAI answers in between.
  pub handle_prompt-unavailable :
      (r q : Request) (rs : List Request) (s : Services)
      → r.reply ≡ failed
      → cached T r.prompt "gpt-4" s.cache ≡ none
      → cached T r.prompt "fallback" s.cache ≡ none
      → assert_user T r.user_id r.asserted s.quotas ≡ true
      → q.prompt ≡ r.prompt
      → assert_user T q.user_id q.asserted (handle_prompts T rs (handle_prompt T r s).1).quotas
        ≡ true
      → (handle_prompt T q (handle_prompts T rs (handle_prompt T r s).1)).0
        ≡ answered unavailable true
  unfolding handle_prompt answer_prompt answer_fresh completion_or fall_back
  handle_prompt-unavailable r q rs s fails fresh alone admitted same later =
      ap (λ a. a.0) (handle_prompt-again r q rs s unavailable (λ e. cc e) degraded same later)
    where
      degraded : (handle_prompt T r s).0 ≡ answered unavailable false
      degraded = rw (admitted, fresh, generate-failed r s fails, alone) refl
