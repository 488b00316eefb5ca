-- ===== src/Placement/Trim.antt =====
-- The placement of jobs through the trims: `trimByAge` and `trimByCount` of toro/scripts.py.
use toro.Prelude.{
  ℕ, zero, suc, ◌-◌, ◌*◌, ◌≡◌, refl, true, not, ◌&&◌, inl, inr, Option, none, some, List, [], ◌∷◌,
  ◌==◌, Bool-cases, arith, is_some, take, ltb, min, length,
}
use toro.Redis.{Redis, lookup}
use toro.Job.{JobState, is_finished}
use toro.Store.{Store, hget, state_of}
use toro.Scripts.Retention.{
  zrem_finished, finished_set, del_keys, del_settled, del_job, kept_forever, remove_each,
  remove_finished, trim_each, trim_by_age, trim_by_count, age_trim, count_trim, trim, ids_of,
  ids_below, children_of, live_score,
}
use toro.Placement.{IsPlaced}
use toro.Placement.Removal.{Removable, remove_finished-IsPlaced}

-- Every id of a list has a property.
abbrev pub All {ℓ} : (ℕ → Type ℓ) → List ℕ → Type ℓ
All P [] = Unit
All P (x ∷ xs) = P x × All P xs

pub All-map {ℓ κ} :
    (P : ℕ → Type ℓ) (Q : ℕ → Type κ) (xs : List ℕ) → ((x : ℕ) → P x → Q x) → All P xs → All Q xs
All-map P Q [] f h = tt
All-map P Q (x ∷ xs) f h = (f x h.0, All-map P Q xs f h.1)

pub All-zip {ℓ κ μ} :
    (P : ℕ → Type ℓ) (Q : ℕ → Type κ) (S : ℕ → Type μ) (xs : List ℕ)
    → ((x : ℕ) → P x → Q x → S x)
    → All P xs
    → All Q xs
    → All S xs
All-zip P Q S [] f h k = tt
All-zip P Q S (x ∷ xs) f h k = (f x h.0 k.0, All-zip P Q S xs f h.1 k.1)

All-take {ℓ} : (P : ℕ → Type ℓ) (n : ℕ) (xs : List ℕ) → All P xs → All P (take n xs)
All-take P zero xs h = tt
All-take P (suc n) [] h = tt
All-take P (suc n) (x ∷ xs) h = (h.0, All-take P n xs h.1)

abbrev pub Listed : List (ℕ × ℕ) → ℕ → Type 0
Listed l id = is_some (lookup id l) ≡ true

pub Listed-head : (m s : ℕ) (l : List (ℕ × ℕ)) → Listed ((m, s) ∷ l) m
unfolding lookup
Listed-head m s l = ground arith

pub Listed-tail : (m s : ℕ) (l : List (ℕ × ℕ)) (x : ℕ) → Listed l x → Listed ((m, s) ∷ l) x
unfolding lookup
Listed-tail m s l x h = ground arith

ids_of-Listed : (l : List (ℕ × ℕ)) → All (Listed l) (ids_of l)
unfolding ids_of
ids_of-Listed [] = tt
ids_of-Listed ((m, s) ∷ l) =
    (Listed-head m s l, All-map (Listed l) _ (ids_of l) (Listed-tail m s l) (ids_of-Listed l))

ids_below-Listed : (bound : ℕ) (l : List (ℕ × ℕ)) → All (Listed l) (ids_below bound l)
unfolding ids_below
ids_below-Listed bound [] = tt
ids_below-Listed bound ((m, s) ∷ l) =
    let rest =
      All-map (Listed l) (Listed ((m, s) ∷ l)) (ids_below bound l) (Listed-tail m s l)
        (ids_below-Listed bound l) in
    elim (Bool-cases (ltb s bound)) [
      | inl below ↦ rw below (Listed-head m s l, rest)
      | inr above ↦ rw above rest
    ]

module _ {R : Redis} where
  -- A removal leaves a job's state, or no job.
  record Kept (s t : Store R) : Type 0 where
    of : (j : ℕ) → Removable t (state_of s j) j

  Kept-trans : (s t u : Store R) → Kept s t → Kept t u → Kept s u
  Kept-trans s t u h k = record { of = λ j. ground (arith, h.of j, k.of j) }

  drop-Kept :
      (s : Store R) (st : Option JobState) (id : ℕ) → Kept s (del_keys (zrem_finished s st id) id)
  unfolding zrem_finished del_keys
  drop-Kept s (some JobState.completed) id = record { of = λ j. ground arith }
  drop-Kept s (some JobState.failed) id = record { of = λ j. ground arith }
  drop-Kept s (some JobState.cancelled) id = record { of = λ j. ground arith }
  drop-Kept s _ id = record { of = λ j. ground arith }

  zrem_finished-state :
      (s : Store R) (st : Option JobState) (id j : ℕ)
      → state_of (zrem_finished s st id) j ≡ state_of s j
  unfolding zrem_finished
  zrem_finished-state s (some JobState.completed) id j = refl
  zrem_finished-state s (some JobState.failed) id j = refl
  zrem_finished-state s (some JobState.cancelled) id j = refl
  zrem_finished-state s _ id j = refl

  del_settled-Kept : (cids : List ℕ) (s : Store R) → Kept s (del_settled s cids)
  unfolding del_settled
  del_settled-Kept [] s = record { of = λ j. inl refl }
  del_settled-Kept (cid ∷ cids) s = elim (Bool-cases (is_finished (state_of s cid))) [
    | inl e ↦
        rw (e, del_settled)
          (Kept-trans s _ _ (drop-Kept s (state_of s cid) cid) (del_settled-Kept cids _))
    | inr e ↦ rw (e, del_settled) (del_settled-Kept cids s)
  ]

  del_job-Kept : (s : Store R) (id : ℕ) → Kept s (del_job s id)
  unfolding del_job del_keys
  del_job-Kept s id =
      let kept = del_settled-Kept (ids_of (R.zrange (s.live id))) s in
      record { of = λ j. ground (arith, kept.of j) }

  remove_each-Kept :
      (remove : Store R → Option JobState → ℕ → Store R × ℕ) (cids : List ℕ) (s : Store R)
      (gone : ℕ)
      → ((t : Store R) (st : Option JobState) (cid : ℕ) → Kept t (remove t st cid).0)
      → Kept s (remove_each remove s gone cids).0
  unfolding remove_each
  remove_each-Kept remove [] s gone keeps = record { of = λ j. inl refl }
  remove_each-Kept remove (cid ∷ cids) s gone keeps =
      elim (Bool-cases
        (is_finished (state_of s cid) && not (kept_forever s cid (state_of s cid)))) [
          | inl goes ↦
              rw (goes, remove_each)
                (Kept-trans s (remove s (state_of s cid) cid).0 _ (keeps s (state_of s cid) cid)
                  (remove_each-Kept remove cids _ _ keeps))
          | inr stays ↦ rw (stays, remove_each) (remove_each-Kept remove cids s _ keeps)
        ]

  remove_finished-Kept :
      (f : ℕ) (s : Store R) (st : Option JobState) (id : ℕ) → Kept s (remove_finished f s st id).0
  unfolding remove_finished
  remove_finished-Kept zero s st id = record { of = λ j. inl refl }
  remove_finished-Kept (suc f) s st id =
      let zremoved : Kept s (zrem_finished s st id) = record {
        of = λ j. inl (zrem_finished-state s st id j);
      } in
      elim (Bool-cases (is_some (state_of s id))) [
        | inr gone ↦ rw (gone, remove_finished) zremoved
        | inl own ↦
            rw (own, remove_finished)
              (Kept-trans s (del_job (zrem_finished s st id) id) _
                (Kept-trans s (zrem_finished s st id) _ zremoved (del_job-Kept _ id))
                (remove_each-Kept (remove_finished f) (children_of (hget s id (λ j. j.children))) _
                  1 (remove_finished-Kept f)))
      ]

  trim_each-IsPlaced :
      (ids : List ℕ) (s : Store R) (st : Option JobState) (budget : ℕ)
      → is_finished st ≡ true
      → All (Removable s st) ids
      → IsPlaced s
      → IsPlaced (trim_each s st budget ids).0
  unfolding trim_each
  trim_each-IsPlaced [] s st budget e all h = h
  trim_each-IsPlaced (id ∷ ids) s st budget e all h = elim (Bool-cases (budget == 0)) [
    | inl spent ↦ rw (spent, trim_each) h
    | inr left ↦
        let kept = remove_finished-Kept (suc s.next_id) s st id in
        rw (left, trim_each)
          (trim_each-IsPlaced ids _ st _ e
            (All-map (Removable s st) (Removable (remove_finished (suc s.next_id) s st id).0 st) ids
              (λ x r. ground (arith, kept.of x)) all.1)
            (remove_finished-IsPlaced (suc s.next_id) s st id e all.0 h))
  ]

  -- A finished set lists finished jobs of its state.
  Listed-Removable :
      (s : Store R) (st : Option JobState) (id : ℕ)
      → is_finished st ≡ true
      → IsPlaced s
      → Listed (R.zrange (finished_set s st)) id
      → Removable s st id
  unfolding finished_set
  Listed-Removable s (some JobState.completed) id e h l =
      inl (ground (arith, h.placed id, R.lookup-zrange s.completed id))
  Listed-Removable s (some JobState.failed) id e h l =
      inl (ground (arith, h.placed id, R.lookup-zrange s.failed id))
  Listed-Removable s (some JobState.cancelled) id e h l =
      inl (ground (arith, h.placed id, R.lookup-zrange s.cancelled id))
  Listed-Removable s _ id e h l = cc

  module _ (s : Store R) (st : Option JobState) (budget : ℕ) (e : is_finished st ≡ true)
      (h : IsPlaced s) where
    trim-Listed :
        (ids : List ℕ) (n : ℕ)
        → All (Listed (R.zrange (finished_set s st))) ids
        → IsPlaced (trim_each s st budget (take n ids)).0
    trim-Listed ids n all =
        trim_each-IsPlaced (take n ids) s st budget e
          (All-take (Removable s st) n ids (
            All-map (Listed (R.zrange (finished_set s st))) (Removable s st) ids
              (λ x. Listed-Removable s st x e h) all))
          h

    trim_by_age-IsPlaced : (now age : ℕ) → IsPlaced (trim_by_age s st budget now age).0
    unfolding trim_by_age
    trim_by_age-IsPlaced now age =
        trim-Listed (ids_below (now - age * 1000) (R.zrange (finished_set s st))) budget
          (ids_below-Listed (now - age * 1000) (R.zrange (finished_set s st)))

    trim_by_count-IsPlaced : (keep : ℕ) → IsPlaced (trim_by_count s st budget keep).0
    unfolding trim_by_count
    trim_by_count-IsPlaced keep =
        let listing = R.zrange (finished_set s st) in
        let excess = length (ids_below live_score listing) - keep in
        elim (Bool-cases (excess == 0)) [
          | inl none_over ↦ rw (none_over) h
          | inr over ↦
              rw (over) (trim-Listed (ids_of listing) (min excess budget) (ids_of-Listed listing))
        ]

  trim_count-IsPlaced :
      (s : Store R) (st : Option JobState) (budget : ℕ) (keep : Option ℕ)
      → is_finished st ≡ true
      → IsPlaced s
      → IsPlaced (count_trim s st budget keep).0
  unfolding count_trim
  trim_count-IsPlaced s st budget none e h = h
  trim_count-IsPlaced s st budget (some n) e h = elim (Bool-cases (ltb 0 n && ltb 0 budget)) [
    | inl yes_trim ↦ rw (yes_trim) (trim_by_count-IsPlaced s st budget e h n)
    | inr no_trim ↦ rw (no_trim) h
  ]

  trim_age-IsPlaced :
      (s : Store R) (st : Option JobState) (budget now : ℕ) (age : Option ℕ)
      → is_finished st ≡ true
      → IsPlaced s
      → IsPlaced (age_trim s st budget now age).0
  unfolding age_trim
  trim_age-IsPlaced s st budget now none e h = h
  trim_age-IsPlaced s st budget now (some age) e h = elim (Bool-cases (ltb 0 budget)) [
    | inl some_left ↦ rw (some_left) (trim_by_age-IsPlaced s st budget e h now age)
    | inr none_left ↦ rw (none_left) h
  ]

  -- Both trims of a finished set keep every job in place.
  pub trim-IsPlaced :
      (s : Store R) (st : Option JobState) (budget now : ℕ) (keep : Option ℕ × Option ℕ)
      → is_finished st ≡ true
      → IsPlaced s
      → IsPlaced (trim s st budget now keep).0
  unfolding trim
  trim-IsPlaced s st budget now (count, age) e h =
      trim_count-IsPlaced _ st _ count e (trim_age-IsPlaced s st budget now age e h)
