-- ===== src/Ai/Usage.antt =====
-- The monthly requests that ai/quota/quota.service.ts counts.
use Prim.Native.String.{String, ◌++◌}
use xlm_pay.Base.{
  ℕ, ◌≤◌, ◌≡◌, true, Bool-cases, inl, inr, Option, none, some, List, [], ◌∷◌, arith, str_eq, eq_iff,
}
use xlm_pay.Ai.{
  Texts, Request, Services, QuotaRecord, usage, quota_key, assert_quota, record_usage, assert_user,
  record_user, cached, store_answer, answer_fresh, answer_prompt, handle_prompt, handle_prompts,
}

module _ (T : Texts) where
  -- No count is above 1000.
  abbrev pub Within : List (String × QuotaRecord) → Type 0
  Within m = (k : String) → (usage T k m).request_count ≤ 1000

  -- The month does not change between the check and the count of a request.
  pub data SameMonth : List Request → Type 0 where
    no_requests : SameMonth []
    request :
        {r : Request} {rs : List Request}
        → T.month r.asserted ≡ T.month r.recorded
        → SameMonth rs
        → SameMonth (r ∷ rs)

  record_usage-Within :
      (u : String) (t n now : ℕ) (m : List (String × QuotaRecord))
      → T.month t ≡ T.month now
      → assert_quota T u t m ≡ true
      → Within m
      → Within (record_usage T u n now m)
  unfolding assert_quota record_usage quota_key
  record_usage-Within u t n now m same admitted bound k =
      ground (arith, bound k, same, admitted, eq_iff (u ++ (":" ++ T.month now)) k)

  record_user-Within :
      (u : Option String) (t n now : ℕ) (m : List (String × QuotaRecord))
      → T.month t ≡ T.month now
      → assert_user T u t m ≡ true
      → Within m
      → Within (record_user T u n now m)
  unfolding assert_user record_user
  record_user-Within none t n now m same = λ admitted bound. bound
  record_user-Within (some u) t n now m same = elim (Bool-cases (str_eq u "")) [
    | inl e ↦ rw e (λ admitted bound. bound)
    | inr e ↦ rw e (record_usage-Within u t n now m same)
  ]

  answer_prompt-Within :
      (o : Option String) (r : Request) (s : Services)
      → T.month r.asserted ≡ T.month r.recorded
      → assert_user T r.user_id r.asserted s.quotas ≡ true
      → Within s.quotas
      → Within (answer_prompt T o r s).1.quotas
  unfolding answer_prompt answer_fresh store_answer
  answer_prompt-Within none r s same admitted bound =
      record_user-Within r.user_id r.asserted _ r.recorded s.quotas same admitted bound
  answer_prompt-Within (some text) r s same admitted bound = bound

  handle_prompt-Within :
      (r : Request) (s : Services)
      → T.month r.asserted ≡ T.month r.recorded
      → Within s.quotas
      → Within (handle_prompt T r s).1.quotas
  unfolding handle_prompt
  handle_prompt-Within r s same bound =
      elim (Bool-cases (assert_user T r.user_id r.asserted s.quotas)) [
        | inl e ↦ rw e (answer_prompt-Within (cached T r.prompt "gpt-4" s.cache) r s same e bound)
        | inr e ↦ rw e bound
      ]

  -- Requests that are handled one after the other, each within one month, never bring a user's count
  -- of a month above 1000.
  pub handle_prompts-Within :
      (rs : List Request) (s : Services)
      → SameMonth rs
      → Within s.quotas
      → Within (handle_prompts T rs s).quotas
  unfolding handle_prompts
  handle_prompts-Within [] s no_requests bound = bound
  handle_prompts-Within (r ∷ rs) s (request same rest) bound =
      handle_prompts-Within rs _ rest (handle_prompt-Within r s same bound)
