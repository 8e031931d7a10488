-- ===== src/Stellar/Consumers/Sound.antt =====
-- Calls of consumer-management.service.ts on a sound table.
use xlm_pay.Base.{
  ℕ, max, String, ◌≤◌, ◌≡◌, ◌≢◌, Bool, true, false, not, ◌&&◌, Option, none, some, List, [], ◌∷◌,
  refl, sym, get_or, subst, arith, str_eq, eq_iff, Bool-cases, Option-cases, inl, inr,
}
use xlm_pay.Repository.{Repository, Laws}
use xlm_pay.Repository.Counting.{count_mono}
use xlm_pay.Repository.Saves.{count_kept, count_taken}
use xlm_pay.Stellar.Consumers.{
  WebhookConsumer, ConsumerStatus, CreateConsumerDto, UpdateConsumerDto, has_id, has_url,
  create_consumer, create_unless, update_consumer, delete_consumer, activate_consumer,
  deactivate_consumer, suspend_consumer, update_delivery_stats, get_consumer_by_id, save_consumer,
  change_consumer, url_conflict, is_another, assign, suspend, count_delivery, auto_suspend,
  new_consumer,
}
use xlm_pay.Stellar.Consumers.Calls.{Call, IsSound, Fresh, AllFresh, step, run, miscounted}

-- A change that keeps a consumer's id, its URL and the order of its counts.
record IsModest (f : WebhookConsumer → WebhookConsumer) : Type 0 where
  same_id : (c : WebhookConsumer) → (f c).id ≡ c.id
  same_url : (c : WebhookConsumer) → (f c).url ≡ c.url
  counts : (c : WebhookConsumer) → miscounted (f c) ≡ true → miscounted c ≡ true

suspend-IsModest :
    (iso : ℕ → String) (reason : Option String) (now : ℕ) → IsModest (suspend iso reason now)
unfolding suspend
suspend-IsModest iso none now = record {
  same_id = λ c. refl;
  same_url = λ c. refl;
  counts = λ c e. e;
}
suspend-IsModest iso (some r) now = record {
  same_id = λ c. ground arith;
  same_url = λ c. ground arith;
  counts = λ c e. ground arith;
}

count_delivery-IsModest :
    (iso : ℕ → String) (is_success : Bool) (time : Option ℕ) (now : ℕ)
    → IsModest (count_delivery iso is_success time now)
unfolding count_delivery auto_suspend
count_delivery-IsModest iso is_success time now = record {
  same_id = λ c. ground arith;
  same_url = λ c. ground arith;
  counts = λ c e. ground arith;
}

third_false : (x y z : Bool) → (not x && (not y && z)) ≡ false → x ≡ false → y ≡ false → z ≡ false
third_false x y z e f g = ground arith

blank_differs : (a v u : String) → a ≡ v → str_eq v "" ≡ true → u ≢ "" → str_eq a u ≡ false
blank_differs a v u e f given = elim (Bool-cases (str_eq a u)) [
  | inl q ↦ absurd (given (cc ((eq_iff a u).0 q, (eq_iff v "").0 f, e)))
  | inr q ↦ q
]

module _ (R : Repository WebhookConsumer) (L : Laws R) where
  found_by_own_id :
      (db : R.Db) (i : String) (a b : WebhookConsumer)
      → R.find_one (has_id i) db ≡ some a
      → b.id ≡ a.id
      → R.find_one (has_id b.id) db ≡ some a
  found_by_own_id db i a b found ids = subst (λ x. R.find_one (has_id x) db ≡ some a) i-b found
    where
      i-b : i ≡ b.id
      i-b = cc ((eq_iff a.id i).0 (L.find_one-some (has_id i) db a found))

  save-IsSound :
      (db : R.Db) (i : String) (a b : WebhookConsumer)
      → IsSound R db
      → R.find_one (has_id i) db ≡ some a
      → b.id ≡ a.id
      → ((u : String) → u ≢ "" → R.count (has_url u) (save_consumer R b db) ≤ 1)
      → (miscounted b ≡ true → miscounted a ≡ true)
      → IsSound R (save_consumer R b db)
  unfolding save_consumer
  save-IsSound db i a b h found ids urls counts = record {
    unique_ids = λ j. omega (arith, h.unique_ids j, kept (has_id j) (λ e. rw (sym ids) e));
    unique_urls = urls;
    none_miscounted = omega (arith, h.none_miscounted, kept miscounted counts);
  }
    where
      kept :
          (p : WebhookConsumer → Bool)
          → (p b ≡ true → p a ≡ true)
          → R.count p (R.update (has_id b.id) (λ _. b) db) ≤ R.count p db
      kept p =
          count_kept R L (has_id b.id) p db a b (found_by_own_id db i a b found ids)
            (h.unique_ids b.id)

  save_same_url :
      (db : R.Db) (i : String) (a b : WebhookConsumer)
      → IsSound R db
      → R.find_one (has_id i) db ≡ some a
      → b.id ≡ a.id
      → b.url ≡ a.url
      → (u : String) → u ≢ ""
      → R.count (has_url u) (save_consumer R b db) ≤ 1
  unfolding save_consumer
  save_same_url db i a b h found ids urls u given = omega (
    arith,
    h.unique_urls u given,
    count_kept R L (has_id b.id) (has_url u) db a b (found_by_own_id db i a b found ids)
        (h.unique_ids b.id) (λ e. rw (sym urls) e),
  )

  modest-IsSound :
      (db : R.Db) (i : String) (f : WebhookConsumer → WebhookConsumer)
      → IsModest f
      → IsSound R db
      → IsSound R (change_consumer R i f db).1
  unfolding get_consumer_by_id
  modest-IsSound db i f m h = elim (Option-cases (R.find_one (has_id i) db)) [
    | inl e ↦ rw e h
    | inr (a, e) ↦ rw e (
        save-IsSound db i a (f a) h e (m.same_id a)
          (save_same_url db i a (f a) h e (m.same_id a) (m.same_url a)) (m.counts a))
  ]

  -- No consumer but the one with the id has the URL.
  others_differ :
      (db : R.Db) (i url : String)
      → IsSound R db
      → url ≢ ""
      → is_another i (R.find_one (has_url url) db) ≡ false
      → R.count (λ x. has_url url x && not (has_id i x)) db ≡ 0
  unfolding is_another
  others_differ db i url h given e = elim (Option-cases (R.find_one (has_url url) db)) [
    | inl f ↦ omega (
      arith,
      L.find_one-none (has_url url) db f,
      count_mono R L (λ x. has_url url x && not (has_id i x)) (has_url url) db
          (λ x q. ground arith),
    )
    | inr (c, f) ↦ omega (
      arith,
      h.unique_urls url given,
      L.count-split (has_url url) (has_id i) db,
      L.find_one-row (has_url url) (has_id i) db c f
          (same_one c (subst (λ o. is_another i o ≡ false) f e)),
    )
  ]
    where
      same_one : (c : WebhookConsumer) → is_another i (some c) ≡ false → has_id i c ≡ true
      same_one c q = ground (arith, q)

  save_other_url :
      (db : R.Db) (i : String) (a b : WebhookConsumer)
      → IsSound R db
      → R.find_one (has_id i) db ≡ some a
      → b.id ≡ a.id
      → (u : String) → str_eq b.url u ≡ false
      → u ≢ ""
      → R.count (has_url u) (save_consumer R b db) ≤ 1
  unfolding save_consumer
  save_other_url db i a b h found ids u e given = omega (
    arith,
    h.unique_urls u given,
    count_kept R L (has_id b.id) (has_url u) db a b (found_by_own_id db i a b found ids)
        (h.unique_ids b.id) (λ q. cc),
  )

  save_new_url :
      (db : R.Db) (i : String) (a b : WebhookConsumer)
      → IsSound R db
      → R.find_one (has_id i) db ≡ some a
      → b.id ≡ a.id
      → is_another i (R.find_one (has_url b.url) db) ≡ false
      → (u : String) → u ≢ ""
      → R.count (has_url u) (save_consumer R b db) ≤ 1
  unfolding save_consumer
  save_new_url db i a b h found ids free u given = elim (Bool-cases (str_eq b.url u)) [
    | inl e ↦ omega (
      arith,
      h.unique_ids b.id,
      count_taken R L (has_id b.id) (has_url u) db b (free_of u ((eq_iff b.url u).0 e) given),
    )
    | inr e ↦ save_other_url db i a b h found ids u e given
  ]
    where
      i-b : i ≡ b.id
      i-b = cc ((eq_iff a.id i).0 (L.find_one-some (has_id i) db a found))

      free_of :
          (u : String)
          → b.url ≡ u
          → u ≢ ""
          → R.count (λ x. has_url u x && not (has_id b.id x)) db ≡ 0
      free_of u e given =
          subst (λ j. R.count (λ x. has_url u x && not (has_id j x)) db ≡ 0) i-b
            (others_differ db i u h given
              (subst (λ v. is_another i (R.find_one (has_url v) db) ≡ false) e free))

  save_checked :
      (db : R.Db) (i : String) (a b : WebhookConsumer)
      → IsSound R db
      → R.find_one (has_id i) db ≡ some a
      → b.id ≡ a.id
      → (o : Option String) → b.url ≡ get_or o a.url
      → url_conflict R i o a db ≡ false
      → (u : String) → u ≢ ""
      → R.count (has_url u) (save_consumer R b db) ≤ 1
  unfolding url_conflict
  save_checked db i a b h found ids none url e u given =
      save_same_url db i a b h found ids url u given
  save_checked db i a b h found ids (some v) url e u given = elim (Bool-cases (str_eq v "")) [
    | inl f ↦ save_other_url db i a b h found ids u (blank_differs b.url v u url f given) given
    | inr f ↦ elim (Bool-cases (str_eq v a.url)) [
      | inl g ↦ save_same_url db i a b h found ids (cc ((eq_iff v a.url).0 g, url)) u given
      | inr g ↦
          save_new_url db i a b h found ids
            (subst (λ w. is_another i (R.find_one (has_url w) db) ≡ false) (sym url)
              (third_false (str_eq v "") (str_eq v a.url) (is_another i (R.find_one (has_url v) db))
                e f g))
            u given
    ]
  ]

  update_consumer-IsSound :
      (db : R.Db) (i : String) (dto : UpdateConsumerDto)
      → IsSound R db
      → IsSound R (update_consumer R i dto db).1
  unfolding update_consumer get_consumer_by_id assign
  update_consumer-IsSound db i dto h = elim (Option-cases (R.find_one (has_id i) db)) [
    | inl e ↦ rw e h
    | inr (a, e) ↦ rw e (elim (Bool-cases (url_conflict R i dto.url a db)) [
      | inl f ↦ rw f h
      | inr f ↦ rw f (
          save-IsSound db i a (assign dto a) h e refl
            (save_checked db i a (assign dto a) h e refl dto.url refl f) (λ q. q))
    ])
  ]

  create_consumer-IsSound :
      (db : R.Db) (i : String) (dto : CreateConsumerDto)
      → IsSound R db
      → R.count (has_id i) db ≡ 0
      → IsSound R (create_consumer R i dto db).1
  unfolding create_consumer create_unless new_consumer
  create_consumer-IsSound db i dto h new = elim (Option-cases (R.find_one (has_url dto.url) db)) [
    | inr (a, e) ↦ rw e h
    | inl e ↦ rw e (record {
      unique_ids = λ j. omega (arith, h.unique_ids j, inserted (has_id j) (only_id j));
      unique_urls =
          λ u given. omega (arith, h.unique_urls u given, inserted (has_url u) (only_url u e));
      none_miscounted =
          omega (arith, h.none_miscounted, L.count-insert miscounted (new_consumer i dto) db);
    })
  ]
    where
      inserted :
          (p : WebhookConsumer → Bool)
          → (p (new_consumer i dto) ≡ true → R.count p db ≡ 0)
          → R.count p (R.insert (new_consumer i dto) db) ≤ max 1 (R.count p db)
      inserted p k = elim (Bool-cases (p (new_consumer i dto))) [
        | inl q ↦ ground (arith, L.count-insert p (new_consumer i dto) db, k q, q)
        | inr q ↦ ground (arith, L.count-insert p (new_consumer i dto) db, q)
      ]

      only_id : (j : String) → str_eq i j ≡ true → R.count (has_id j) db ≡ 0
      only_id j q = subst (λ x. R.count (has_id x) db ≡ 0) ((eq_iff i j).0 q) new

      only_url :
          (u : String)
          → R.find_one (has_url dto.url) db ≡ none
          → str_eq dto.url u ≡ true
          → R.count (has_url u) db ≡ 0
      only_url u e q =
          subst (λ x. R.count (has_url x) db ≡ 0) ((eq_iff dto.url u).0 q)
            (L.find_one-none (has_url dto.url) db e)

  delete_consumer-IsSound :
      (db : R.Db) (i : String) → IsSound R db → IsSound R (delete_consumer R i db).1
  unfolding delete_consumer get_consumer_by_id
  delete_consumer-IsSound db i h = elim (Option-cases (R.find_one (has_id i) db)) [
    | inl e ↦ rw e h
    | inr (a, e) ↦ rw e (record {
      unique_ids = λ j. omega (arith, h.unique_ids j, fewer a (has_id j));
      unique_urls = λ u given. omega (arith, h.unique_urls u given, fewer a (has_url u));
      none_miscounted = omega (arith, h.none_miscounted, fewer a miscounted);
    })
  ]
    where
      fewer :
          (a : WebhookConsumer) (p : WebhookConsumer → Bool)
          → R.count p (R.delete (has_id a.id) db) ≤ R.count p db
      fewer a p = omega (arith, L.count-delete p (has_id a.id) db, L.count-split p (has_id a.id) db)

  step-IsSound :
      (iso : ℕ → String) (c : Call) (db : R.Db)
      → Fresh R c db
      → IsSound R db
      → IsSound R (step R iso c db)
  unfolding step activate_consumer deactivate_consumer suspend_consumer update_delivery_stats
  step-IsSound iso (Call.create i dto) db new h = create_consumer-IsSound db i dto h new
  step-IsSound iso (Call.update i dto) db new h = update_consumer-IsSound db i dto h
  step-IsSound iso (Call.delete i) db new h = delete_consumer-IsSound db i h
  step-IsSound iso (Call.activate i) db new h = modest-IsSound db i _ mark h
    where
      mark : IsModest (λ c. record c { is_active = true; status = ConsumerStatus.active })
      mark = record { same_id = λ c. refl; same_url = λ c. refl; counts = λ c e. e }
  step-IsSound iso (Call.deactivate i) db new h = modest-IsSound db i _ mark h
    where
      mark : IsModest (λ c. record c { is_active = false; status = ConsumerStatus.inactive })
      mark = record { same_id = λ c. refl; same_url = λ c. refl; counts = λ c e. e }
  step-IsSound iso (Call.suspend i reason now) db new h =
      modest-IsSound db i (suspend iso reason now) (suspend-IsModest iso reason now) h
  step-IsSound iso (Call.count_delivery i b time now) db new h =
      modest-IsSound db i (count_delivery iso b time now) (count_delivery-IsModest iso b time now) h

  -- Calls of the consumer service, whose new consumers have ids of their own, keep a sound table
  -- sound: ids are unique, two consumers never share a URL that is not empty, and no consumer has
  -- more failed deliveries than deliveries.
  pub run-IsSound :
      (iso : ℕ → String) (cs : List Call) (db : R.Db)
      → AllFresh R iso cs db
      → IsSound R db
      → IsSound R (run R iso cs db)
  unfolding run AllFresh
  run-IsSound iso [] db new h = h
  run-IsSound iso (c ∷ cs) db (new, news) h =
      run-IsSound iso cs (step R iso c db) news (step-IsSound iso c db new h)
