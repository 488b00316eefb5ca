-- ===== src/Listing/Roots.antt =====
-- LIST_ROOTS and ROOTS_COUNTS of toro/scripts.py, against the listing of a state without children.
use mathlib.Core.List.{reverse, reverse-cons, append-nil}
use toro.Prelude.{
  ℕ, ◌+◌, ◌-◌, ◌<◌, ◌≡◌, refl, sym, ap, ◌∙◌, List, [], ◌∷◌, ◌++◌, Bool, true, false, ◌||◌, Option,
  none, some, arith, ltb, leb, ◌==◌, is_some, get_or_else, length, take, drop, Bool-cases,
  Option-cases, inl, inr, length-append,
}
use toro.Redis.{Redis, entries_where, missing}
use toro.Store.{Store}
use toro.Options.Values.{ℤ}
use toro.Scripts.Roots.{
  members, from_end, between, range, size, count_roots, in_order, roots_page, roots_between,
  list_roots, active_roots, roots_counts,
}
use toro.Listing.Count.{roots, roots-append, length-members, count_roots-roots, no_children}
use toro.Listing.Page.{left, page-left}

members-entries_where :
    (score : ℕ → Option ℕ) (xs : List (ℕ × ℕ))
    → members (entries_where (λ m. missing (score m)) xs) ≡ roots score (members xs)
unfolding members entries_where roots
members-entries_where score [] = refl
members-entries_where score ((m, s) ∷ xs) = elim (Option-cases (score m)) [
  | inl e ↦ rw e (ap (λ t. m ∷ t) (members-entries_where score xs))
  | inr (k, e) ↦ rw e (members-entries_where score xs)
]

roots-reverse :
    (score : ℕ → Option ℕ) (xs : List ℕ) → roots score (reverse xs) ≡ reverse (roots score xs)
unfolding roots
roots-reverse score [] = refl
roots-reverse score (m ∷ xs) =
    ap (roots score) (reverse-cons m xs)
    ∙ roots-append score (reverse xs) (m ∷ [])
    ∙ elim (Bool-cases (is_some (score m))) [
      | inl e ↦ rw e (append-nil (roots score (reverse xs)) ∙ roots-reverse score xs)
      | inr e ↦
          rw e (
            ap (λ t. t ++ (m ∷ [])) (roots-reverse score xs)
            ∙ sym (reverse-cons m (roots score xs)))
    ]

roots-none : (score : ℕ → Option ℕ) (xs : List ℕ) → ((m : ℕ) → score m ≡ none) → roots score xs ≡ xs
unfolding roots
roots-none score [] h = refl
roots-none score (m ∷ xs) h = rw (h m) (ap (λ t. m ∷ t) (roots-none score xs h))

length-reverse : (xs : List ℕ) → length (reverse xs) ≡ length xs
length-reverse [] = refl
length-reverse (m ∷ xs) =
    omega
      (arith, ap length (reverse-cons m xs), length-append (reverse xs) (m ∷ []), length-reverse xs)

whole_left : (start want : ℕ) (xs : List ℕ) → left start want 0 0 xs ≡ take want (drop start xs)
unfolding left
whole_left start want xs =
    let a : want - 0 ≡ want = omega arith in
    let b : start - 0 ≡ start = omega arith in
    ap (λ n. take n (drop (start - 0) xs)) a ∙ ap (λ n. take want (drop n xs)) b

module _ (R : Redis) where
  -- The roots of a state in the order asked for.
  unfoldable pub ordered_roots : R.ZSet → R.ZSet → Bool → List ℕ
  unfolding roots
  ordered_roots state ch rev = roots (R.zscore ch) (in_order R state rev)

  length-in_order : (z : R.ZSet) (rev : Bool) → length (in_order R z rev) ≡ length (R.zrange z)
  length-in_order z true = length-reverse (members (R.zrange z)) ∙ length-members (R.zrange z)
  length-in_order z false = length-members (R.zrange z)

  length-ordered_roots :
      (state ch : R.ZSet) (rev : Bool)
      → length (ordered_roots state ch rev)
        ≡ length (roots (R.zscore ch) (members (R.zrange state)))
  unfolding ordered_roots
  length-ordered_roots state ch true =
      ap length (roots-reverse (R.zscore ch) (members (R.zrange state)))
      ∙ length-reverse (roots (R.zscore ch) (members (R.zrange state)))
  length-ordered_roots state ch false = refl

  -- The diff of the whole sets, in the order asked for.
  diff-ordered_roots :
      (state ch : R.ZSet) (rev : Bool)
      → in_order R (R.zdiff state ch) rev ≡ ordered_roots state ch rev
  unfolding ordered_roots
  diff-ordered_roots state ch true =
      ap (λ t. reverse (members t)) (R.zrange-zdiff state ch)
      ∙ ap reverse (members-entries_where (R.zscore ch) (R.zrange state))
      ∙ sym (roots-reverse (R.zscore ch) (members (R.zrange state)))
  diff-ordered_roots state ch false =
      ap members (R.zrange-zdiff state ch) ∙ members-entries_where (R.zscore ch) (R.zrange state)

  between-page :
      (state ch : R.ZSet) (rev : Bool) (chunk deep start stop : ℕ)
      → 0 < chunk
      → (ltb stop start || leb (length (ordered_roots state ch rev)) start) ≡ false
      → roots_page R state ch rev chunk deep start stop
        ≡ take ((stop - start) + 1) (drop start (ordered_roots state ch rev))
  unfolding roots_page range between from_end
  between-page state ch rev chunk deep start stop some_chunk inside =
      elim (Bool-cases (leb deep start)) [
        | inl far ↦ rw (far, diff-ordered_roots state ch rev, inside) refl
        | inr near ↦ rw near (
            page-left (size R state) (R.zscore ch) (in_order R state rev) chunk start
              ((stop - start) + 1) 0 0 [] some_chunk (omega (arith, length-in_order state rev))
            ∙ whole_left start ((stop - start) + 1) (roots (R.zscore ch) (in_order R state rev))
            ∙ unfold ordered_roots in refl)
      ]

  roots_between-between :
      (state ch : R.ZSet) (rev : Bool) (chunk deep start : ℕ) (stop : Option ℕ)
      → 0 < chunk
      → roots_between R state ch rev chunk deep (length (ordered_roots state ch rev)) start stop
        ≡ between (ordered_roots state ch rev) start stop
  unfolding roots_between between
  roots_between-between state ch rev chunk deep start none some_chunk = refl
  roots_between-between state ch rev chunk deep start (some stop) some_chunk =
      let n = length (ordered_roots state ch rev) in
      elim (Bool-cases (ltb stop start || leb n start)) [
        | inl out ↦
            let early : ((n == 0) || (ltb stop start || leb n start)) ≡ true =
              rw out (ground arith) in
            rw (early, out) refl
        | inr inside ↦
            let on : ((n == 0) || (ltb stop start || leb n start)) ≡ false =
              ground (arith, inside) in
            rw (on, inside) (between-page state ch rev chunk deep start stop some_chunk inside)
      ]

  -- LIST_ROOTS answers the number of jobs of the state that are no flow's children, and of those
  -- the page that ZRANGE (or ZREVRANGE) gives of them alone: from any start to any stop, also from
  -- the end, in chunks of any size but 0, and whether the page is walked to or the sets are diffed.
  pub list_roots-roots :
      (state ch : R.ZSet) (start stop : ℤ) (rev : Bool) (chunk deep : ℕ)
      → 0 < chunk
      → list_roots R state ch start stop rev chunk deep
        ≡ (length (ordered_roots state ch rev), range (ordered_roots state ch rev) start stop)
  unfolding list_roots
  list_roots-roots state ch start stop rev chunk deep some_chunk =
      elim (Bool-cases (size R ch == 0)) [
        | inl none_there ↦
            let all : ordered_roots state ch rev ≡ in_order R state rev =
              unfold ordered_roots in
              roots-none (R.zscore ch) (in_order R state rev) (no_children R ch (ground arith)) in
            rw (none_there, all, length-in_order state rev) refl
        | inr flows ↦
            let total =
              count_roots-roots R state ch chunk some_chunk
              ∙ sym (length-ordered_roots state ch rev) in
            rw (flows, total)
              (ap (λ xs. (length (ordered_roots state ch rev), xs))
                (roots_between-between state ch rev chunk deep
                  (get_or_else (from_end (length (ordered_roots state ch rev)) start) 0)
                  (from_end (length (ordered_roots state ch rev)) stop) some_chunk))
      ]

  active_roots-roots :
      (ch : R.ZSet) (ids : List ℕ) → active_roots R ch ids ≡ length (roots (R.zscore ch) ids)
  unfolding active_roots roots
  active_roots-roots ch [] = refl
  active_roots-roots ch (m ∷ ids) = elim (Option-cases (R.zscore ch m)) [
    | inl e ↦ rw e (ground (arith, active_roots-roots ch ids))
    | inr (k, e) ↦ elim (Bool-cases (ltb 0 (size R ch))) [
      | inl some_there ↦ rw (e, some_there) (active_roots-roots ch ids)
      | inr none_there ↦ let none_at = no_children R ch (ground arith) m in absurd (cc (none_at, e))
    ]
  ]

  -- The number of roots of a sorted set.
  abbrev pub roots_in : Store R → R.ZSet → ℕ
  roots_in s z = length (ordered_roots z s.children false)

  -- ROOTS_COUNTS gives, for each of the eight states, the number of its jobs that are no flow's
  -- children, the total that LIST_ROOTS gives of the state; of the active jobs, which are a list,
  -- those that the children index does not name.
  pub roots_counts-roots :
      (s : Store R) (chunk : ℕ)
      → 0 < chunk
      → roots_counts R s chunk
        ≡ roots_in s s.prioritized
          ∷ roots_in s s.delayed
          ∷ roots_in s s.completed
          ∷ roots_in s s.failed
          ∷ roots_in s s.waiting_children
          ∷ roots_in s s.held
          ∷ roots_in s s.cancelled
          ∷ length (roots (R.zscore s.children) s.active)
          ∷ []
  unfolding roots_counts
  roots_counts-roots s chunk some_chunk =
      let same : (z : R.ZSet) → count_roots R z s.children chunk ≡ roots_in s z = λ z.
        count_roots-roots R z s.children chunk some_chunk
        ∙ sym (length-ordered_roots z s.children false) in
      rw
        (
          same s.prioritized,
          same s.delayed,
          same s.completed,
          same s.failed,
          same s.waiting_children,
          same s.held,
          same s.cancelled,
          active_roots-roots s.children s.active,
        )
        refl
