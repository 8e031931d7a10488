-- ===== src/Repository/Memory.antt =====
-- A table in memory, which meets the laws of a repository.
use xlm_pay.Base.{
  ℕ, ◌+◌, ◌≤◌, ◌≡◌, refl, Bool, true, false, not, ◌&&◌, none, some, List, [], ◌∷◌, map, find,
  filter, All, arith, if◌then◌else◌,
}
use xlm_pay.Repository.{Repository, Laws, one_if}

module _ {ℓ} {A : Type ℓ} where
  abbrev pub count : (A → Bool) → List A → ℕ
  count p [] = 0
  count p (a ∷ d) = one_if (p a) + count p d

  find-none : (p : A → Bool) (d : List A) → find p d ≡ none → count p d ≡ 0
  find-none p [] e = refl
  find-none p (x ∷ d) e = ground (arith, find-none p d)

  find-some : (p : A → Bool) (d : List A) (a : A) → find p d ≡ some a → p a ≡ true
  find-some p [] a e = cc
  find-some p (x ∷ d) a e = ground (arith, find-some p d a)

  find-row :
      (p q : A → Bool) (d : List A) (a : A)
      → find p d ≡ some a
      → q a ≡ true
      → 1 ≤ count (λ x. p x && q x) d
  find-row p q [] a e h = cc
  find-row p q (x ∷ d) a e h = ground (arith, find-row p q d a)

  pub count_split :
      (p q : A → Bool) (d : List A)
      → count p d ≡ count (λ x. p x && q x) d + count (λ x. p x && not (q x)) d
  count_split p q [] = omega arith
  count_split p q (x ∷ d) = ground (arith, count_split p q d)

  count_none : (d : List A) → count (λ _. false) d ≡ 0
  count_none [] = refl
  count_none (x ∷ d) = omega (arith, count_none d)

  count-map :
      (p c : A → Bool) (f : A → A) (d : List A)
      → count p (map (λ x. if c x then f x else x) d) ≡ count (λ x. p (if c x then f x else x)) d
  count-map p c f [] = refl
  count-map p c f (x ∷ d) = omega (arith, count-map p c f d)

  pub count-filter :
      (p c : A → Bool) (d : List A)
      → count p (filter (λ x. not (c x)) d) ≡ count (λ x. p x && not (c x)) d
  count-filter p c [] = refl
  count-filter p c (x ∷ d) = ground (arith, count-filter p c d)

  find-All :
      (p q : A → Bool) (d : List A)
      → count (λ x. p x && not (q x)) d ≡ 0
      → All (λ a. q a ≡ true) (filter p d)
  find-All p q [] e = tt
  find-All p q (x ∷ d) e = ground (arith, find-All p q d)

abbrev pub table : (A : Type 0) → Repository A
table A = record {
  Db = List A;
  find_one = find;
  find = filter;
  count = count;
  insert = λ a d. a ∷ d;
  update = λ c f d. map (λ x. if c x then f x else x) d;
  delete = λ c d. filter (λ x. not (c x)) d;
}

pub table-Laws : (A : Type 0) → Laws (table A)
table-Laws A = record {
  find_one-none = find-none;
  find_one-some = find-some;
  find_one-row = find-row;
  find-All = find-All;
  count-split = count_split;
  count_never = count_none;
  count-insert = λ p a d. refl;
  count-update = count-map;
  count-delete = count-filter;
}
