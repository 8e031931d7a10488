-- ===== src/Voice/Quota/Keys/Memory.antt =====
-- Numbers in memory, which meet the laws.
use Prim.Native.String.{String, ◌++◌}
use text.Mathlib.Text.{starts_with}
use text.Mathlib.TextPositions.{starts_with-append}
use xlm_pay.Base.{
  ℕ, ◌+◌, ◌*◌, ◌≤◌, ◌≡◌, ◌≢◌, refl, sym, subst, Bool, Bool-cases, inl, inr, true, false, not, ◌&&◌,
  Option, none, some, List, [], ◌∷◌, map, filter, get_or, arith, ltb, str_eq, eq_iff, if◌then◌else◌,
}
use xlm_pay.Voice.Sessions.Stores.{among}
use xlm_pay.Voice.Quota.Keys.{Numbers, Laws}

pub record Slot : Type 0 where
  pub key : String
  pub value : ℕ
  pub expires : Option ℕ

abbrev pub is_live : ℕ → Option ℕ → Bool
is_live t none = true
is_live t (some e) = ltb t e

abbrev pub look : String → ℕ → List Slot → Option ℕ
look k t [] = none
look k t (s ∷ d) =
    let rest = look k t d in
    if str_eq s.key k then (if is_live t s.expires then some s.value else none) else rest

abbrev pub expiry : String → ℕ → List Slot → Option ℕ
expiry k t [] = none
expiry k t (s ∷ d) =
    let rest = expiry k t d in
    if str_eq s.key k then (if is_live t s.expires then s.expires else none) else rest

abbrev pub until : String → ℕ → ℕ → Slot → Slot
until k n t s =
    if str_eq s.key k && is_live t s.expires then record s { expires = some (t + n * 1000) } else s

abbrev pub named : String → List Slot → List String
named p [] = []
named p (s ∷ d) = let rest = named p d in if starts_with s.key p then s.key ∷ rest else rest

abbrev pub without : String → List Slot → List Slot
without k = filter (λ s. not (str_eq s.key k))

is_live-later : (e : Option ℕ) (t u : ℕ) → t ≤ u → is_live u e ≡ true → is_live t e ≡ true
is_live-later none t u h l = refl
is_live-later (some e) t u h l = ground (arith, l)

look-later :
    (k : String) (t u : ℕ) (d : List Slot) (n : ℕ)
    → t ≤ u
    → look k u d ≡ some n
    → look k t d ≡ some n
look-later k t u [] n h e = e
look-later k t u (s ∷ d) n h e =
    ground (arith, look-later k t u d n h, is_live-later s.expires t u h, e)

look-without : (k : String) (t : ℕ) (d : List Slot) → look k t (without k d) ≡ none
look-without k t [] = refl
look-without k t (s ∷ d) = ground (arith, look-without k t d)

look-without_other :
    (j k : String) (t : ℕ) (d : List Slot) → j ≢ k → look j t (without k d) ≡ look j t d
look-without_other j k t [] h = refl
look-without_other j k t (s ∷ d) h =
    ground (arith, look-without_other j k t d h, eq_iff s.key j, eq_iff s.key k, h)

look-until :
    (j k : String) (n t u : ℕ) (d : List Slot)
    → t ≤ u
    → get_or (look j u (map (until k n t) d)) 0 ≤ get_or (look j t d) 0
look-until j k n t u [] h = omega arith
look-until j k n t u (s ∷ d) h =
    ground (arith, look-until j k n t u d h, is_live-later s.expires t u h)

look-named :
    (p q : String) (t : ℕ) (d : List Slot)
    → among (p ++ q) (named p d) ≡ false
    → look (p ++ q) t d ≡ none
look-named p q t [] = λ h. refl
look-named p q t (s ∷ d) = elim (Bool-cases (str_eq s.key (p ++ q))) [
  | inl e ↦ rw (begins e, e) (λ h. cc h)
  | inr e ↦ elim (Bool-cases (starts_with s.key p)) [
    | inl f ↦ rw (f, e) (look-named p q t d)
    | inr f ↦ rw (f, e) (look-named p q t d)
  ]
]
  where
    begins : str_eq s.key (p ++ q) ≡ true → starts_with s.key p ≡ true
    begins e =
        subst (λ v. starts_with v p ≡ true) (sym ((eq_iff s.key (p ++ q)).0 e))
          (starts_with-append p q)

abbrev pub memory : Numbers
memory = record {
  Db = List Slot;
  get = look;
  incr = λ k t d.
      let n = get_or (look k t d) 0 + 1 in
      (n, record { key = k; value = n; expires = expiry k t d } ∷ d);
  expire = λ k n t d. map (until k n t) d;
  set_ex = λ k n v t d. record { key = k; value = v; expires = some (t + n * 1000) } ∷ d;
  del = without;
  keys = λ p t d. named p d;
}

pub memory-Laws : Laws memory
memory-Laws = record {
  get-later = look-later;
  get-incr = λ k t u d h. ground (arith, eq_iff k k);
  get-incr_other = λ j k t u d h. ground (arith, eq_iff k j, h);
  get-expire = look-until;
  get-del = look-without;
  get-del_other = look-without_other;
  keys-all = λ p s t d. look-named p s t d;
}
