-- ===== src/Voice/Sessions/Stores/Memory.antt =====
-- Stores in memory, which meet the laws.
use xlm_pay.Base.{
  ℕ, String, ◌+◌, ◌*◌, ◌≤◌, ◌≡◌, ◌≢◌, refl, Bool, true, false, not, Option, none, some, List, [],
  ◌∷◌, ◌++◌, map, filter, arith, ltb, str_eq, eq_iff, if◌then◌else◌,
}
use xlm_pay.Voice.Sessions.Stores.{Values, ValuesLaws, Sets, among}

-- A value and the time at which it expires.
pub record Slot (X : Type 0) : Type 0 where
  pub key : String
  pub value : X
  pub expires : ℕ

module _ {X : Type 0} where
  abbrev pub look : String → ℕ → List (Slot X) → Option X
  look k t [] = none
  look k t (s ∷ d) =
      let rest = look k t d in
      if str_eq s.key k then (if ltb t s.expires then some s.value else none) else rest

  abbrev pub without : String → List (Slot X) → List (Slot X)
  without k = filter (λ s. not (str_eq s.key k))

  look-later :
      (k : String) (t u : ℕ) (d : List (Slot X)) (x : X)
      → t ≤ u
      → look k u d ≡ some x
      → look k t d ≡ some x
  look-later k t u [] x h e = e
  look-later k t u (s ∷ d) x h e = ground (arith, look-later k t u d x h)

  look-without : (k : String) (t : ℕ) (d : List (Slot X)) → look k t (without k d) ≡ none
  look-without k t [] = refl
  look-without k t (s ∷ d) = ground (arith, look-without k t d)

  look-without_other :
      (j k : String) (t : ℕ) (d : List (Slot X)) → j ≢ k → look j t (without k d) ≡ look j t d
  look-without_other j k t [] h = refl
  look-without_other j k t (s ∷ d) h =
      ground (arith, look-without_other j k t d h, eq_iff s.key j, eq_iff s.key k, h)

  look-keys :
      (k : String) (t : ℕ) (d : List (Slot X))
      → among k (map (λ s. s.key) d) ≡ false
      → look k t d ≡ none
  look-keys k t [] h = refl
  look-keys k t (s ∷ d) h = ground (arith, look-keys k t d, h)

abbrev pub values : (X : Type 0) → Values X
values X = record {
  Db = List (Slot X);
  get = look;
  set_ex = λ k n x t d. record { key = k; value = x; expires = t + n * 1000 } ∷ d;
  del = without;
  expire =
      λ k n t d. map (λ s. if str_eq s.key k then record s { expires = t + n * 1000 } else s) d;
  keys = λ t d. map (λ s. s.key) d;
}

pub values-ValuesLaws : (X : Type 0) → ValuesLaws (values X)
values-ValuesLaws X = record {
  get-later = look-later;
  get-set_ex = λ k n t u x y d h e. ground (arith, eq_iff k k, e);
  get-set_ex_other = λ j k n t u x d h. ground (arith, eq_iff k j, h);
  get-del = look-without;
  get-del_other = look-without_other;
  keys-all = look-keys;
}

-- A set, and the time at which it expires, if it has one.
pub record Members : Type 0 where
  pub key : String
  pub members : List String
  pub expires : Option ℕ

abbrev is_live : ℕ → Option ℕ → Bool
is_live t none = true
is_live t (some e) = ltb t e

abbrev the_set : String → ℕ → List Members → Members
the_set k t [] = record { key = k; members = []; expires = none }
the_set k t (m ∷ d) =
    let rest = the_set k t d in
    if str_eq m.key k
    then (if is_live t m.expires then m else record { key = k; members = []; expires = none })
    else rest

abbrev with_member : String → Members → Members
with_member x m = if among x m.members then m else record m { members = m.members ++ (x ∷ []) }

abbrev pub sets : Sets
sets = record {
  Db = List Members;
  add = λ k x t d. with_member x (the_set k t d) ∷ d;
  remove = λ k x t d.
      let m : Members = the_set k t d in
      record m { members = filter (λ y. not (str_eq y x)) m.members } ∷ d;
  members = λ k t d. let m : Members = the_set k t d in m.members;
  expire =
      λ k n t d. let m : Members = the_set k t d in record m { expires = some (t + n * 1000) } ∷ d;
}
