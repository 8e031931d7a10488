-- ===== src/Workflow/Start/Exclusion.antt =====
-- Workers that run acquireWorkflowLock and releaseWorkflowLock on one key, one Redis command at a
-- time, in any order. Each worker's token is its own.
use xlm_pay.Base.{
  String, ◌≡◌, refl, sym, ap, ◌∙◌, ◌⊎◌, Bool, true, false, Option, none, some, str_eq, eq_iff,
  if◌then◌else◌, inl, inr,
}

-- Where a worker stands: before SET NX, refused by it, in the `try` block, after the GET of the
-- release with what it compared to, after the release.
pub data Phase : Type 0 where
  starting : Phase
  refused : Phase
  executing : Phase
  compared : Bool → Phase
  released : Phase

pub record Workers : Type 0 where
  pub lock : Option String
  pub phase : String → Phase

unfoldable pub holds : Phase → Bool
holds Phase.starting = false
holds Phase.refused = false
holds Phase.executing = true
holds (Phase.compared own) = own
holds Phase.released = false

-- Whether the lock's value is the token.
abbrev pub is_own : String → Option String → Bool
is_own token none = false
is_own token (some t) = str_eq t token

unfoldable pub move : String → Phase → (String → Phase) → String → Phase
move token p phase t = if str_eq t token then p else phase t

-- SET NX: taken if the key is free.
unfoldable pub try_acquire : String → Option String → Workers → Workers
try_acquire token none s = record { lock = some token; phase = move token Phase.executing s.phase }
try_acquire token (some t) s = record s { phase = move token Phase.refused s.phase }

-- GET, and the DEL that follows if the token was there.
unfoldable pub compare_token : String → Workers → Workers
compare_token token s = record s {
  phase = move token (Phase.compared (is_own token s.lock)) s.phase;
}

unfoldable pub finish_release : String → Bool → Workers → Workers
finish_release token own s = record {
  lock = if own then none else s.lock;
  phase = move token Phase.released s.phase;
}

pub data Step : Workers → Workers → Type 0 where
  acquire :
      (token : String) (s : Workers)
      → s.phase token ≡ Phase.starting
      → Step s (try_acquire token s.lock s)
  compare :
      (token : String) (s : Workers)
      → s.phase token ≡ Phase.executing
      → Step s (compare_token token s)
  finish :
      (token : String) (own : Bool) (s : Workers)
      → s.phase token ≡ Phase.compared own
      → Step s (finish_release token own s)

-- The key runs out.
unfoldable pub expire : Workers → Workers
expire s = record s { lock = none }

pub data Steps : Workers → Workers → Type 0 where
  done : (s : Workers) → Steps s s
  step : (s t u : Workers) → Step s t → Steps t u → Steps s u

-- Whoever holds the lock has its token there.
Owns : Workers → Type 0
Owns s = (t : String) → holds (s.phase t) ≡ true → s.lock ≡ some t

if_cases :
    (b : Bool) (x y : Phase)
    → holds (if b then x else y) ≡ true
    → (b ≡ true × holds x ≡ true) ⊎ (b ≡ false × holds y ≡ true)
if_cases true x y p = inl (refl, p)
if_cases false x y p = inr (refl, p)

move-cases :
    (token : String) (q : Phase) (phase : String → Phase) (t : String)
    → holds (move token q phase t) ≡ true
    → (str_eq t token ≡ true × holds q ≡ true) ⊎ (str_eq t token ≡ false × holds (phase t) ≡ true)
unfolding move
move-cases token q phase t p = if_cases (str_eq t token) q (phase t) p

acquire-Owns :
    (token : String) (s : Workers) (o : Option String)
    → s.lock ≡ o
    → Owns s
    → Owns (try_acquire token o s)
unfolding Owns try_acquire holds
acquire-Owns token s none e h t p = elim (move-cases token Phase.executing s.phase t p) [
  | inl (f, _) ↦ ap some (sym ((eq_iff t token).0 f))
  | inr (_, q) ↦ cc (h t q, e)
]
acquire-Owns token s (some u) e h t p = elim (move-cases token Phase.refused s.phase t p) [
  | inl (_, q) ↦ cc
  | inr (_, q) ↦ h t q
]

compare-Owns :
    (token : String) (s : Workers)
    → s.phase token ≡ Phase.executing
    → Owns s
    → Owns (compare_token token s)
unfolding Owns compare_token holds
compare-Owns token s e h t p =
    elim (move-cases token (Phase.compared (is_own token s.lock)) s.phase t p) [
      | inl (f, _) ↦ h t (at t ((eq_iff t token).0 f))
      | inr (_, q) ↦ h t q
    ]
  where
    at : (t : String) → t ≡ token → holds (s.phase t) ≡ true
    at t f = ap holds (ap s.phase f ∙ e)

finish-Owns :
    (token : String) (own : Bool) (s : Workers)
    → s.phase token ≡ Phase.compared own
    → Owns s
    → Owns (finish_release token own s)
unfolding Owns finish_release holds
finish-Owns token true s e h t p = elim (move-cases token Phase.released s.phase t p) [
  | inl (_, q) ↦ cc
  | inr (f, q) ↦ absurd (cc ((eq_iff t token).1 (same t q), f))
]
  where
    same : (t : String) → holds (s.phase t) ≡ true → t ≡ token
    same t q = cc (h t q, h token (ap holds e))
finish-Owns token false s e h t p = elim (move-cases token Phase.released s.phase t p) [
  | inl (_, q) ↦ cc
  | inr (_, q) ↦ h t q
]

step-Owns : (s t : Workers) → Step s t → Owns s → Owns t
step-Owns _ _ (Step.acquire token s e) h = acquire-Owns token s s.lock refl h
step-Owns _ _ (Step.compare token s e) h = compare-Owns token s e h
step-Owns _ _ (Step.finish token own s e) h = finish-Owns token own s e h

steps-Owns : (s t : Workers) → Steps s t → Owns s → Owns t
steps-Owns _ _ (Steps.done s) h = h
steps-Owns _ _ (Steps.step s t u a b) h = steps-Owns t u b (step-Owns s t a h)

-- From a state in which nobody holds the lock, and as long as the key does not run out, two workers
-- never execute under the lock at once, in whatever order the commands of the workers reach Redis.
pub steps_exclusive :
    (s t : Workers) (a b : String)
    → ((w : String) → holds (s.phase w) ≡ false)
    → Steps s t
    → holds (t.phase a) ≡ true
    → holds (t.phase b) ≡ true
    → a ≡ b
unfolding Owns
steps_exclusive s t a b nobody run pa pb =
    cc (
      steps-Owns s t run (λ w p. cc (nobody w)) a pa,
      steps-Owns s t run (λ w p. cc (nobody w)) b pb,
    )
