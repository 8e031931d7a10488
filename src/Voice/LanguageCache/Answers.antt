-- ===== src/Voice/LanguageCache/Answers.antt =====
-- The answers that llm-cache.service.ts gives after it has stored or invalidated some.
use Prim.Native.String.{◌++◌}
use xlm_pay.Base.{
  ℕ, String, ◌+◌, ◌*◌, ◌≤◌, ◌≡◌, ◌≢◌, refl, ap, Bool, true, false, ◌||◌, Option, none, some, List,
  ltb, or_default, arith, str_eq, eq_iff, Bool-cases, inl, inr, ◌⊎◌, if◌then◌else◌,
}
use xlm_pay.Voice.Deletions.{del_all-none, del_all_complete}
use xlm_pay.Voice.Sessions.Stores.{Values, ValuesLaws, among}
use xlm_pay.Voice.Quota.Keys.{Numbers}
use xlm_pay.Voice.LanguageCache.{
  Texts, Cache, default_ttl, version_prefix, prompt_suffix, generate_cache_key, get, get_found, set,
  delete_entries, keys_of, invalidate,
}

own_key : (j k : String) → j ≡ k → (str_eq j k || false) ≡ false → true ≡ false
own_key j k e h = ground (arith, eq_iff j k, e, h)

module _ (T : Texts) (V : Values String) (C : Values ℕ) (N : Numbers)
    (keys_between : String → String → ℕ → V.Db → List String) (L : ValuesLaws V) where
  answer-if :
      (k : String) (b : Bool) (r : String) (u : ℕ) (c : Cache T V C N keys_between)
      → r ≢ ""
      → (get_found T V C N keys_between k (if b then some r else none) u c).0
        ≡ (if b then some r else none)
  unfolding get_found
  answer-if k false r u c given = refl
  answer-if k true r u c given = elim (Bool-cases (str_eq r "")) [
    | inl e ↦ absurd (given ((eq_iff r "").0 e))
    | inr e ↦ rw e refl
  ]

  -- The keys to delete are those of the prompt that are there.
  keys_of_complete :
      (prompt model : String) (of : Option String) (now : ℕ) (c : Cache T V C N keys_between)
      → ((p m s : String) (t : ℕ) (d : V.Db)
          → among (p ++ (m ++ s)) (keys_between p s t d) ≡ false
          → V.get (p ++ (m ++ s)) t d ≡ none)
      → (of ≡ none) ⊎ (of ≡ some model)
      → among (generate_cache_key T prompt model) (keys_of T V C N keys_between prompt of now c)
        ≡ false
      → V.get (generate_cache_key T prompt model) now c.answers ≡ none
  unfolding keys_of generate_cache_key
  keys_of_complete prompt model none now c complete which =
      complete version_prefix model (prompt_suffix T prompt) now c.answers
  keys_of_complete prompt model (some m) now c complete (inl e) = cc
  keys_of_complete prompt model (some m) now c complete (inr e) = elim (Bool-cases (str_eq m "")) [
    | inl f ↦ rw f (complete version_prefix model (prompt_suffix T prompt) now c.answers)
    | inr f ↦ rw f (λ h.
        absurd
          (cc (own_key (generate_cache_key T prompt m) (generate_cache_key T prompt model) same h)))
  ]
    where
      same : generate_cache_key T prompt m ≡ generate_cache_key T prompt model
      same = ap (generate_cache_key T prompt) (cc e)

  -- A stored answer that is not empty is given for every prompt with the same normal form until its
  -- TTL has passed, and none is given from then on. A TTL of 0 or none stands for a day.
  pub get-set :
      (prompt asked response model : String) (ttl : Option ℕ) (now u : ℕ)
      (c : Cache T V C N keys_between)
      → ((k : String) (n t u : ℕ) (x : String) (d : V.Db)
          → t ≤ u
          → V.get k u (V.set_ex k n x t d) ≡ (if ltb u (t + n * 1000) then some x else none))
      → T.normalize asked ≡ T.normalize prompt
      → response ≢ ""
      → now ≤ u
      → (get T V C N keys_between asked model u
          (set T V C N keys_between prompt response model ttl now c)).0
        ≡ (if ltb u (now + or_default ttl default_ttl * 1000) then some response else none)
  unfolding get set generate_cache_key prompt_suffix
  get-set prompt asked response model ttl now u c live same given later =
      rw
        (
          same,
          live (generate_cache_key T prompt model) (or_default ttl default_ttl) now u response
              c.answers later,
        )
        (answer-if _ (ltb u (now + or_default ttl default_ttl * 1000)) response u _ given)

  -- After an invalidation of a prompt, for one model that is named or for all, the prompts with the
  -- same normal form have no answer of that model, or of any.
  pub get-invalidate :
      (prompt asked model : String) (of : Option String) (now : ℕ) (c : Cache T V C N keys_between)
      → ((p m s : String) (t : ℕ) (d : V.Db)
          → among (p ++ (m ++ s)) (keys_between p s t d) ≡ false
          → V.get (p ++ (m ++ s)) t d ≡ none)
      → T.normalize asked ≡ T.normalize prompt
      → (of ≡ none) ⊎ (of ≡ some model)
      → (get T V C N keys_between asked model now
          (invalidate T V C N keys_between prompt of now c).1).0
        ≡ none
  unfolding get get_found invalidate generate_cache_key prompt_suffix delete_entries
  get-invalidate prompt asked model of now c complete same which = rw (same, gone) refl
    where
      gone :
          V.get
            (generate_cache_key T prompt model)
            now
            (delete_entries T V C N keys_between
              (keys_of T V C N keys_between prompt of now c)
              c).answers
          ≡ none
      gone = del_all-none V.get V.del L.get-del L.get-del_other _ _ now _ (
          del_all_complete V.get V.del L.get-del L.get-del_other _ _ now c.answers
            (keys_of_complete prompt model of now c complete which))
