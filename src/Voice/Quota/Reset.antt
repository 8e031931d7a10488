-- ===== src/Voice/Quota/Reset.antt =====
-- resetUserQuota against the limits that setUserMonthlyQuota sets.
use Prim.Native.String.{String, ◌++◌}
use text.Mathlib.TextLemmas.{append_assoc}
use xlm_pay.Base.{ℕ, ◌≡◌, refl, ap, ◌∙◌, sym, subst, none}
use xlm_pay.Voice.Deletions.{del_all_complete}
use xlm_pay.Voice.Quota.Keys.{Numbers, Laws}
use xlm_pay.Voice.Quota.{
  Calendar, Store, usage, user_prefix, limit_key, month_key, reset_user_quota,
  get_user_monthly_quota,
}

module _ (C : Calendar) (N : Numbers) (L : Laws N) where
  -- Whatever stands under the user's prefix is gone.
  reset_user_quota-gone :
      (user_id s : String) (now : ℕ) (st : Store C N)
      → N.get (user_prefix user_id ++ s) now (reset_user_quota C N user_id now st).months ≡ none
  unfolding reset_user_quota
  reset_user_quota-gone user_id s now st =
      del_all_complete N.get N.del L.get-del L.get-del_other _ _ now st.months
        (L.keys-all (user_prefix user_id) s now st.months)

  -- A reset of a user's quota brings the month's count to 0, and takes away the limit that was set
  -- for the user: it is the default of 1000 again. The same is so for every user whose id begins with
  -- the user's own and a colon.
  pub reset_user_quota-default :
      (user_id suffix : String) (now : ℕ) (st : Store C N)
      → let after = reset_user_quota C N user_id now st in
        let other = user_prefix user_id ++ suffix in
        (usage C N (month_key C user_id now) now after.months ≡ 0)
        × (get_user_monthly_quota C N user_id now after ≡ 1000)
        × (usage C N (month_key C other now) now after.months ≡ 0)
        × (get_user_monthly_quota C N other now after ≡ 1000)
  unfolding get_user_monthly_quota month_key limit_key user_prefix
  reset_user_quota-default user_id suffix now st = (
    rw (reset_user_quota-gone user_id (C.month now) now st) refl,
    rw (reset_user_quota-gone user_id "limit" now st) refl,
    rw (gone_of_other (C.month now)) refl,
    rw (gone_of_other "limit") refl,
  )
    where
      gone_of_other :
          (s : String)
          → N.get
              (user_prefix (user_prefix user_id ++ suffix) ++ s)
              now
              (reset_user_quota C N user_id now st).months
            ≡ none
      gone_of_other s =
          subst (λ k. N.get k now (reset_user_quota C N user_id now st).months ≡ none)
            (sym (
              ap (λ v. v ++ s) (append_assoc (user_prefix user_id) suffix ":")
              ∙ append_assoc (user_prefix user_id) (suffix ++ ":") s))
            (reset_user_quota-gone user_id ((suffix ++ ":") ++ s) now st)
