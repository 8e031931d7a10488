-- ===== src/Voice/LanguageCache.antt =====
-- llm-cache.service.ts: answers of the language model under the hash of a prompt. The answers and
-- each of their statistics are stores of their own. SHA-256 and `prompt.trim().toLowerCase()` are
-- parameters; times are in milliseconds.
pub mod Answers
mod Tests
use Prim.Native.String.{String, ◌++◌}
use xlm_pay.Base.{
  ℕ, ◌+◌, ◌-◌, ◌*◌, Bool, true, false, Option, none, some, List, [], ◌∷◌, length, ltb, or_default,
  str_eq, if◌then◌else◌,
}
use xlm_pay.Voice.Deletions.{del_all}
use xlm_pay.Voice.Sessions.Stores.{Values}
use xlm_pay.Voice.Quota.Keys.{Numbers}

pub record Texts : Type 0 where
  pub normalize : String → String  -- prompt.trim().toLowerCase()
  pub sha256 : String → String

abbrev pub default_ttl : ℕ
default_ttl = 86400

abbrev pub version_prefix : String
version_prefix = "llm:cache:v1:"

-- What the keys of a prompt end in, for every model.
unfoldable pub prompt_suffix : Texts → String → String
prompt_suffix T prompt = ":" ++ T.sha256 (T.normalize prompt)

unfoldable pub generate_cache_key : Texts → (prompt model : String) → String
generate_cache_key T prompt model = version_prefix ++ (model ++ prompt_suffix T prompt)

unfoldable pub generate_stats_key : String → String
generate_stats_key cache_key = cache_key ++ ":stats"

abbrev pub stats_keys : List String → List String
stats_keys [] = []
stats_keys (k ∷ ks) = generate_stats_key k ∷ stats_keys ks

pub record Warm : Type 0 where
  pub prompt : String
  pub response : String
  pub model : String
  pub ttl : Option ℕ

-- `keys_between` is KEYS, of the keys that begin with one text and end with another.
module _ (T : Texts) (V : Values String) (C : Values ℕ) (N : Numbers)
    (keys_between : String → String → ℕ → V.Db → List String) where
  -- The answers, `…:stats:created`, `…:stats:model`, `…:stats:ttl`, `…:stats:hits` and the totals.
  pub record Cache : Type 0 where
    pub answers : V.Db
    pub created : C.Db
    pub models : V.Db
    pub ttls : C.Db
    pub hits : N.Db
    pub totals : N.Db

  -- `if (cached)`: an empty answer is a miss.
  unfoldable pub get_found : String → Option String → ℕ → Cache → Option String × Cache
  get_found cache_key none now c = (none, c)
  get_found cache_key (some cached) now c = if str_eq cached "" then (none, c) else (
    some cached,
    record c {
      hits = (N.incr cache_key now c.hits).1;
      totals = (N.incr "llm:cache:total-hits" now c.totals).1;
    },
  )

  unfoldable pub get : (prompt model : String) → ℕ → Cache → Option String × Cache
  get prompt model now c =
      get_found (generate_cache_key T prompt model)
        (V.get (generate_cache_key T prompt model) now c.answers) now c

  unfoldable pub set : (prompt response model : String) → Option ℕ → ℕ → Cache → Cache
  set prompt response model ttl now c =
      let key : String = generate_cache_key T prompt model in
      let effective_ttl : ℕ = or_default ttl default_ttl in
      record c {
        answers = V.set_ex key effective_ttl response now c.answers;
        created = C.set_ex key effective_ttl now now c.created;
        models = V.set_ex key effective_ttl model now c.models;
        ttls = C.set_ex key effective_ttl effective_ttl now c.ttls;
        totals = (N.incr "llm:cache:total-entries" now c.totals).1;
      }

  -- Deletes entries. The keys that are deleted with them end in `:stats`, and hold nothing.
  unfoldable pub delete_entries : List String → Cache → Cache
  delete_entries keys c = record c {
    answers = del_all V.del (stats_keys keys) (del_all V.del keys c.answers);
  }

  -- The keys of one model, or of all.
  unfoldable pub keys_of : String → Option String → ℕ → Cache → List String
  keys_of prompt none now c = keys_between version_prefix (prompt_suffix T prompt) now c.answers
  keys_of prompt (some model) now c =
      if str_eq model ""
      then keys_between version_prefix (prompt_suffix T prompt) now c.answers
      else generate_cache_key T prompt model ∷ []

  unfoldable pub invalidate : String → Option String → ℕ → Cache → ℕ × Cache
  invalidate prompt model now c =
      let keys : List String = keys_of prompt model now c in (length keys, delete_entries keys c)

  abbrev pub is_older : ℕ → ℕ → Option ℕ → Bool
  is_older now max_age_seconds none = false
  is_older now max_age_seconds (some created) = ltb (max_age_seconds * 1000) (now - created)

  -- The keys that pruneOldEntries deletes, without those that end in `:stats`.
  unfoldable pub old_keys : List String → (max_age_seconds now : ℕ) → Cache → List String
  old_keys [] max_age_seconds now c = []
  old_keys (k ∷ ks) max_age_seconds now c =
      let rest = old_keys ks max_age_seconds now c in
      if is_older now max_age_seconds (C.get k now c.created) then k ∷ rest else rest

  unfoldable pub prune_old_entries : (max_age_seconds now : ℕ) → Cache → ℕ × Cache
  prune_old_entries max_age_seconds now c =
      let keys : List String = old_keys (V.keys now c.answers) max_age_seconds now c in
      (length keys, delete_entries keys c)

  unfoldable pub warm_cache : List Warm → ℕ → Cache → Cache
  warm_cache [] now c = c
  warm_cache (w ∷ ws) now c = warm_cache ws now (set w.prompt w.response w.model w.ttl now c)
