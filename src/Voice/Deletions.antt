-- ===== src/Voice/Deletions.antt =====
-- DEL of a list of keys, in any of the stores of the voice services.
use xlm_pay.Base.{
  ℕ, String, ◌≡◌, ◌≢◌, subst, ◌∙◌, Bool, true, false, ◌||◌, Option, none, List, [], ◌∷◌, arith,
  str_eq, eq_iff, Bool-cases, inl, inr,
}
use xlm_pay.Voice.Sessions.Stores.{among}

unfoldable pub del_all : {Db : Type 0} → (String → Db → Db) → List String → Db → Db
del_all del [] d = d
del_all del (k ∷ ks) d = del_all del ks (del k d)

second_true : (a b : Bool) → (a || b) ≡ true → a ≡ false → b ≡ true
second_true a b e f = ground arith

module _ {X : Type 0} {Db : Type 0} (get : String → ℕ → Db → Option X) (del : String → Db → Db)
    (get-del : (k : String) (t : ℕ) (d : Db) → get k t (del k d) ≡ none)
    (get-del_other : (j k : String) (t : ℕ) (d : Db) → j ≢ k → get j t (del k d) ≡ get j t d) where
  pub del-none : (j k : String) (t : ℕ) (d : Db) → get k t d ≡ none → get k t (del j d) ≡ none
  del-none j k t d e = elim (Bool-cases (str_eq k j)) [
    | inl q ↦ rw ((eq_iff k j).0 q) (get-del j t d)
    | inr q ↦ get-del_other k j t d (λ f. cc ((eq_iff k j).1 f, q)) ∙ e
  ]

  pub del_all-none :
      (ks : List String) (k : String) (t : ℕ) (d : Db)
      → get k t d ≡ none
      → get k t (del_all del ks d) ≡ none
  unfolding del_all
  del_all-none [] k t d e = e
  del_all-none (j ∷ js) k t d e = del_all-none js k t (del j d) (del-none j k t d e)

  -- A key that is listed is gone.
  pub del_all-listed :
      (ks : List String) (k : String) (t : ℕ) (d : Db)
      → among k ks ≡ true
      → get k t (del_all del ks d) ≡ none
  unfolding del_all
  del_all-listed [] k t d e = cc
  del_all-listed (j ∷ js) k t d e = elim (Bool-cases (str_eq j k)) [
    | inl q ↦
        del_all-none js k t (del j d)
          (subst (λ i. get i t (del j d) ≡ none) ((eq_iff j k).0 q) (get-del j t d))
    | inr q ↦ del_all-listed js k t (del j d) (second_true (str_eq j k) (among k js) e q)
  ]

  -- Where the list has every key that is there, so is each.
  pub del_all_complete :
      (ks : List String) (k : String) (t : ℕ) (d : Db)
      → (among k ks ≡ false → get k t d ≡ none)
      → get k t (del_all del ks d) ≡ none
  del_all_complete ks k t d h = elim (Bool-cases (among k ks)) [
    | inl q ↦ del_all-listed ks k t d q
    | inr q ↦ del_all-none ks k t d (h q)
  ]
