-- ===== src/Queue/Listing/Page.antt =====
-- toro/queue.py, `get_jobs` and `_ids`: pages of one listing.
use mathlib.Core.List.{reverse, reverse-cons, append-nil}
use toro.Prelude.{
  ℕ, zero, suc, ◌+◌, ◌-◌, ◌<◌, ◌≡◌, refl, sym, ap, ◌∙◌, List, [], ◌∷◌, ◌++◌, true, false, ◌||◌,
  Option, none, some, arith, ltb, leb, ◌==◌, if◌then◌else◌, get_or_else, length, take, drop,
  Bool-cases, inl, inr, length-append, length-take, take-append, drop-append, drop_all, take_all,
}
use toro.Redis.{Redis}
use toro.Job.{JobState, is_finished}
use toro.Store.{Store}
use toro.Scripts.Roots.{members, from_end, between, range}
use toro.Options.Values.{ℤ, pos, negsuc}
use toro.Queue.Listing.{
  settled, living, window, newest_finished, finished_page, get_finished, last_of, finished_ids,
  state_zset, get_jobs, ids_of,
}

take_none : (n : ℕ) (xs ys : List ℕ) → n ≡ 0 → xs ++ take n ys ≡ xs
take_none n xs ys e = ap (λ k. xs ++ take k ys) e ∙ append-nil xs

-- Two reads, of what has settled and of what runs, are one page of both.
newest_finished-window :
    (xs : List (ℕ × ℕ)) (start : ℕ) (count : ℤ)
    → newest_finished xs start count ≡ window start count (settled xs ++ living xs)
unfolding newest_finished window
newest_finished-window xs start (negsuc n) = sym (drop-append start (settled xs) (living xs))
newest_finished-window xs start (pos count) =
    let page = drop start (settled xs) in
    let later = drop (start - length (settled xs)) (living xs) in
    let size = length-take count page in
    let whole : take count (drop start (settled xs ++ living xs))
        ≡ take count page ++ take (count - length page) later =
      ap (take count) (drop-append start (settled xs) (living xs)) ∙ take-append count page later in
    elim (Bool-cases (count == length (take count page))) [
      | inl full ↦ rw full (
          sym (
            whole
            ∙ take_none (count - length page) (take count page) later (ground (arith, full, size))))
      | inr more ↦
          let same : count - length (take count page) ≡ count - length page = omega (arith, size) in
          rw more (ap (λ n. take count page ++ take n later) same ∙ sym whole)
    ]

settled_and_living : (xs : List (ℕ × ℕ)) → length (settled xs) + length (living xs) ≡ length xs
unfolding settled living
settled_and_living [] = omega arith
settled_and_living ((m, s) ∷ xs) = ground (arith, settled_and_living xs)

length-settled : (xs : List (ℕ × ℕ)) → length (settled xs ++ living xs) ≡ length xs
length-settled xs = length-append (settled xs) (living xs) ∙ settled_and_living xs

length-reversed : (xs : List (ℕ × ℕ)) → length (reverse xs) ≡ length xs
length-reversed [] = refl
length-reversed (x ∷ xs) =
    omega (
      arith,
      ap length (reverse-cons x xs),
      length-append (reverse xs) (x ∷ []),
      length-reversed xs,
    )

-- A finished set, newest first: what has settled, and then the children of the flows that run.
unfoldable pub finished_first : List (ℕ × ℕ) → List ℕ
unfolding settled living
finished_first xs = settled (reverse xs) ++ living (reverse xs)

length-finished_first : (xs : List (ℕ × ℕ)) → length (finished_first xs) ≡ length xs
unfolding finished_first
length-finished_first xs = length-settled (reverse xs) ∙ length-reversed xs

finished_page-between :
    (xs : List (ℕ × ℕ)) (start : ℕ) (stop : Option ℕ)
    → finished_page (reverse xs) start stop ≡ between (finished_first xs) start stop
unfolding finished_page between finished_first
finished_page-between xs start none = refl
finished_page-between xs start (some stop) = elim (Bool-cases (ltb stop start)) [
  | inl out ↦ rw out refl
  | inr inside ↦
      let page = newest_finished-window (reverse xs) start (pos ((stop - start) + 1)) in
      elim (Bool-cases (leb (length (settled (reverse xs) ++ living (reverse xs))) start)) [
        | inl over ↦
            let nothing_left : drop start (settled (reverse xs) ++ living (reverse xs)) ≡ [] =
              drop_all start (settled (reverse xs) ++ living (reverse xs)) (ground arith) in
            rw (inside, over)
              (page
                ∙ unfold window in
                  (ap (take ((stop - start) + 1)) nothing_left
                    ∙ take_all ((stop - start) + 1) [] (omega arith)))
        | inr on ↦ rw (inside, on) (page ∙ unfold window in refl)
      ]
]

get_finished-range :
    (xs : List (ℕ × ℕ)) (start stop : ℤ)
    → get_finished xs start stop ≡ range (finished_first xs) start stop
unfolding get_finished range
get_finished-range xs start stop =
    finished_page-between xs (get_or_else (from_end (length xs) start) 0)
      (from_end (length xs) stop)
    ∙ ap (λ n. between (finished_first xs) (get_or_else (from_end n start) 0) (from_end n stop))
        (sym (length-finished_first xs))

module _ (R : Redis) where
  -- The ids of a state in the order that the client lists them.
  unfoldable pub listed : Store R → JobState → List ℕ
  unfolding members finished_first state_zset
  listed s JobState.active = s.active
  listed s state =
      if is_finished (some state)
      then finished_first (R.zrange (state_zset s state))
      else members (R.zrange (state_zset s state))

  -- A page of any state, from any start to any stop, also from the end, is that page of one listing:
  -- the active jobs as they were claimed, the waiting ones in their order, and the finished ones newest
  -- first, with the finished children of the flows that still run behind all others.
  pub get_jobs-listed :
      (s : Store R) (state : JobState) (start stop : ℤ)
      → get_jobs s state start stop ≡ range (listed s state) start stop
  unfolding get_jobs listed
  get_jobs-listed s JobState.active start stop = refl
  get_jobs-listed s JobState.wait start stop = refl
  get_jobs-listed s JobState.delayed start stop = refl
  get_jobs-listed s JobState.held start stop = refl
  get_jobs-listed s JobState.waiting_children start stop = refl
  get_jobs-listed s JobState.completed start stop =
      get_finished-range (R.zrange s.completed) start stop
  get_jobs-listed s JobState.failed start stop = get_finished-range (R.zrange s.failed) start stop
  get_jobs-listed s JobState.cancelled start stop =
      get_finished-range (R.zrange s.cancelled) start stop

pub range-take :
    (xs : List ℕ) (limit : ℕ) → 0 < limit → range xs (pos 0) (last_of limit) ≡ take limit xs
unfolding range between from_end
range-take [] (suc n) some_limit =
    let out : (ltb n 0 || leb 0 0) ≡ true = ground arith in rw out refl
range-take (x ∷ xs) (suc n) some_limit =
    let a : (n - 0) + 1 ≡ suc n = omega arith in
    let out : (ltb n 0 || leb (length (x ∷ xs)) 0) ≡ false = ground arith in
    rw out (ap (λ k. take k (x ∷ xs)) a)
range-take xs zero some_limit = absurd (omega arith)

finished_ids-take :
    (xs : List (ℕ × ℕ)) (limit : ℕ) → finished_ids xs limit true ≡ take limit (finished_first xs)
unfolding finished_ids finished_first window
finished_ids-take xs limit = newest_finished-window (reverse xs) 0 (pos limit)

module _ (R : Redis) where
  -- What a batch call takes of a state is the front of the same listing, at most its limit, where the
  -- limit is at least 1.
  pub ids_of-listed :
      (s : Store R) (state : JobState) (limit : ℕ)
      → 0 < limit
      → ids_of s state limit true ≡ take limit (listed R s state)
  unfolding ids_of listed
  ids_of-listed s JobState.active limit p = range-take s.active limit p
  ids_of-listed s JobState.wait limit p = range-take (members (R.zrange s.prioritized)) limit p
  ids_of-listed s JobState.delayed limit p = range-take (members (R.zrange s.delayed)) limit p
  ids_of-listed s JobState.held limit p = range-take (members (R.zrange s.held)) limit p
  ids_of-listed s JobState.waiting_children limit p =
      range-take (members (R.zrange s.waiting_children)) limit p
  ids_of-listed s JobState.completed limit p = finished_ids-take (R.zrange s.completed) limit
  ids_of-listed s JobState.failed limit p = finished_ids-take (R.zrange s.failed) limit
  ids_of-listed s JobState.cancelled limit p = finished_ids-take (R.zrange s.cancelled) limit
