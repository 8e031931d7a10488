-- ===== src/Limits/RateLimit/Tests.antt =====
-- Runs of the sliding window on a sorted set in memory.
use xlm_pay.Base.{
  ℕ, String, ◌≡◌, refl, ◌∙◌, ap, fun_ext, Bool, true, not, ◌&&◌, some, List, [], ◌∷◌, map, filter,
  arith, leb, str_eq, eq_iff,
}
use xlm_pay.Repository.{one_if}
use xlm_pay.Repository.Memory.{count, count_split, count-filter}
use xlm_pay.Limits.RateLimit.{SortedSets, Laws, everything, check_rate_limit}
use xlm_pay.Limits.RateLimit.Window.{requests, check_rate_limit_same_ms}

record Entry : Type 0 where
  key : String
  score : ℕ
  value : String

abbrev at_key : String → (ℕ → String → Bool) → Entry → Bool
at_key k p e = str_eq e.key k && p e.score e.value

abbrev sets : SortedSets
sets = record {
  Db = List Entry;
  z_rem_range_by_score =
      λ k a b d. (true, filter (λ e. not (at_key k (λ s v. leb a s && leb s b) e)) d);
  z_card = λ k d. some (count (at_key k everything) d);
  z_range = λ k a b d. some (map (λ e. e.value) (filter (at_key k everything) d));
  z_add = λ k s v d. (
    true,
    record { key = k; score = s; value = v } ∷ filter (λ e. not (at_key k (λ t w. str_eq w v) e)) d,
  );
  expire = λ k n d. (true, d);
  del = λ k d. (true, filter (λ e. not (at_key k everything e)) d);
  count = λ k p d. count (at_key k p) d;
}

same : (p q : Entry → Bool) (d : List Entry) → ((e : Entry) → p e ≡ q e) → count p d ≡ count q d
same p q d h = ap (λ c. count c d) (fun_ext h)

sets-Laws : Laws sets
sets-Laws = record {
  z_rem-succeeds = λ k a b d. refl;
  z_add-succeeds = λ k s v d. refl;
  expire-succeeds = λ k t d. refl;
  z_card-count = λ k d. refl;
  z_range-succeeds = λ k a b d. (_, refl);
  count-z_rem = λ k p a b d.
      count-filter (at_key k p) (at_key k (λ s v. leb a s && leb s b)) d
      ∙ same _ (at_key k (λ s v. p s v && not (leb a s && leb s b))) d (λ e. ground arith);
  count-z_add = λ k p s v d. omega (
    arith,
    count-filter (at_key k p) (at_key k (λ t w. str_eq w v)) d,
    same (λ e. at_key k p e && not (at_key k (λ t w. str_eq w v) e))
        (at_key k (λ t w. p t w && not (str_eq w v))) d (λ e. ground arith),
    added k (p s v),
  );
  count-expire = λ k p t d h. refl;
  count-split = λ k p q d. omega (
    arith,
    count_split (at_key k p) (λ e. q e.score e.value) d,
    same (λ e. at_key k p e && q e.score e.value) (at_key k (λ s v. p s v && q s v)) d
        (λ e. ground arith),
    same (λ e. at_key k p e && not (q e.score e.value)) (at_key k (λ s v. p s v && not (q s v))) d
        (λ e. ground arith),
  );
}
  where
    added : (k : String) (b : Bool) → one_if (str_eq k k && b) ≡ one_if b
    added k b = ground (arith, eq_iff k k)

check_rate_limit_same_ms_example :
    (check_rate_limit sets
      (λ v. 0)
      "k"
      2
      60
      100000
      (requests sets (λ v. 0) "k" 2 60 100000 3 [])).0.allowed
    ≡ true
check_rate_limit_same_ms_example =
    check_rate_limit_same_ms sets sets-Laws (λ v. 0) "k" 2 60 100000 (omega arith) (omega arith) 3
      [] (omega arith)
