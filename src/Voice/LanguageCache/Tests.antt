-- ===== src/Voice/LanguageCache/Tests.antt =====
-- Runs of llm-cache.service.ts on stores in memory, with one prompt, so that keys that begin alike
-- end alike.
use Prim.Native.String.{String, ◌++◌}
use text.Mathlib.Text.{starts_with}
use text.Mathlib.TextPositions.{starts_with-append}
use xlm_pay.Base.{
  ℕ, ◌≡◌, refl, sym, subst, true, false, none, some, inl, List, [], ◌∷◌, arith, str_eq, eq_iff,
  Bool-cases, inr, if◌then◌else◌,
}
use xlm_pay.Voice.Sessions.Stores.{among}
use xlm_pay.Voice.Sessions.Stores.Memory.{Slot, values, values-ValuesLaws, look}
use xlm_pay.Voice.Quota.Keys.Memory.{memory}
use xlm_pay.Voice.LanguageCache.{Texts, Cache, get, set, invalidate}
use xlm_pay.Voice.LanguageCache.Answers.{get-set, get-invalidate}

abbrev texts : Texts
texts = record { normalize = λ p. "what is a wallet"; sha256 = λ s. s }

abbrev begin_with : String → String → ℕ → List (Slot String) → List String
begin_with p s t [] = []
begin_with p s t (x ∷ d) =
    let rest = begin_with p s t d in if starts_with x.key p then x.key ∷ rest else rest

look-begin_with :
    (p q s : String) (t : ℕ) (d : List (Slot String))
    → among (p ++ q) (begin_with p s t d) ≡ false
    → look (p ++ q) t d ≡ none
look-begin_with p q s t [] = λ h. refl
look-begin_with p q s t (x ∷ d) = elim (Bool-cases (str_eq x.key (p ++ q))) [
  | inl e ↦ rw (begins e, e) (λ h. cc h)
  | inr e ↦ elim (Bool-cases (starts_with x.key p)) [
    | inl f ↦ rw (f, e) (look-begin_with p q s t d)
    | inr f ↦ rw (f, e) (look-begin_with p q s t d)
  ]
]
  where
    begins : str_eq x.key (p ++ q) ≡ true → starts_with x.key p ≡ true
    begins e =
        subst (λ v. starts_with v p ≡ true) (sym ((eq_iff x.key (p ++ q)).0 e))
          (starts_with-append p q)

abbrev Memory : Type 0
Memory = Cache texts (values String) (values ℕ) memory begin_with

abbrev empty : Memory
empty = record { answers = []; created = []; models = []; ttls = []; hits = []; totals = [] }

abbrev filled : Memory
filled =
    set texts (values String) (values ℕ) memory begin_with "What is a wallet?" "A key." "gpt" none
      1000 empty

get-set_example :
    (get texts (values String) (values ℕ) memory begin_with "what is a wallet" "gpt" 2000 filled).0
    ≡ some "A key."
get-set_example =
    get-set texts (values String) (values ℕ) memory begin_with (values-ValuesLaws String)
      "What is a wallet?" "what is a wallet" "A key." "gpt" none 1000 2000 empty
      (λ k n t u x d h. ground (arith, eq_iff k k)) refl (λ e. cc e) (omega arith)

get-invalidate_example :
    (get texts
      (values String)
      (values ℕ)
      memory
      begin_with
      "what is a wallet"
      "gpt"
      2000
      (invalidate texts
        (values String)
        (values ℕ)
        memory
        begin_with
        "What is a wallet?"
        none
        2000
        filled).1).0
    ≡ none
get-invalidate_example =
    get-invalidate texts (values String) (values ℕ) memory begin_with (values-ValuesLaws String)
      "What is a wallet?" "what is a wallet" "gpt" none 2000 filled
      (λ p m s t d. look-begin_with p (m ++ s) s t d) refl (inl refl)
