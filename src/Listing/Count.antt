-- ===== src/Listing/Count.antt =====
-- `walk`, `present` and `countRoots` of toro/scripts.py: the count, whichever set is walked.
use toro.Prelude.{
  ℕ, zero, suc, ◌+◌, ◌≤◌, ◌<◌, ◌≡◌, refl, sym, ap, ◌∙◌, subst, List, [], ◌∷◌, ◌++◌, Option, none,
  arith, ltb, ◌==◌, if◌then◌else◌, is_some, length, take, drop, Bool-cases, inl, inr, take-drop,
  drop-drop, drop_all,
}
use toro.Redis.{Redis, lookup, IsListing}
use toro.Scripts.Roots.{members, present, walk, count_roots}

-- The members that no index of children names.
unfoldable pub roots : (ℕ → Option ℕ) → List ℕ → List ℕ
roots score [] = []
roots score (m ∷ ms) = let rest = roots score ms in if is_some (score m) then rest else m ∷ rest

pub roots-append :
    (score : ℕ → Option ℕ) (xs ys : List ℕ)
    → roots score (xs ++ ys) ≡ roots score xs ++ roots score ys
unfolding roots
roots-append score [] ys = refl
roots-append score (m ∷ xs) ys = elim (Bool-cases (is_some (score m))) [
  | inl e ↦ rw e (roots-append score xs ys)
  | inr e ↦ rw e (ap (λ t. m ∷ t) (roots-append score xs ys))
]

present-append :
    (score : ℕ → Option ℕ) (xs ys : List ℕ)
    → present score (xs ++ ys) ≡ present score xs + present score ys
unfolding present
present-append score [] ys = omega arith
present-append score (m ∷ xs) ys = ground (arith, present-append score xs ys)

pub present-roots :
    (score : ℕ → Option ℕ) (xs : List ℕ) → present score xs + length (roots score xs) ≡ length xs
unfolding present roots
present-roots score [] = omega arith
present-roots score (m ∷ xs) = ground (arith, present-roots score xs)

-- A walk in chunks counts what one pass over the rest would: its fuel is enough.
walk-present :
    (fuel : ℕ) (score : ℕ → Option ℕ) (xs : List ℕ) (chunk at n : ℕ)
    → 0 < chunk
    → length xs ≤ at + fuel
    → walk fuel score xs chunk at n ≡ n + present score (drop at xs)
unfolding walk present
walk-present zero score xs chunk at n pos enough =
    let none_left : drop at xs ≡ [] = drop_all at xs (omega arith) in rw none_left (omega arith)
walk-present (suc fuel) score xs chunk at n pos enough = elim (Bool-cases (ltb at (length xs))) [
  | inl more ↦
      let rest =
        walk-present fuel score xs chunk (at + chunk) (n + present score (take chunk (drop at xs)))
          pos (omega arith) in
      let whole = ap (present score) (take-drop chunk (drop at xs)) in
      let parts = present-append score (take chunk (drop at xs)) (drop chunk (drop at xs)) in
      let moved = ap (present score) (drop-drop chunk at xs) in
      rw more (omega (arith, rest, whole, parts, moved))
  | inr done ↦
      let none_left : drop at xs ≡ [] = drop_all at xs (ground arith) in
      rw (done, none_left) (omega arith)
]

-- How many members of one listing another has.
common : List (ℕ × ℕ) → List (ℕ × ℕ) → ℕ
common xs ys = present (λ m. lookup m ys) (members xs)

common-cons :
    (m s : ℕ) (xs ys : List (ℕ × ℕ))
    → lookup m xs ≡ none
    → IsListing ys
    → common ys ((m, s) ∷ xs) ≡ (if is_some (lookup m ys) then suc (common ys xs) else common ys xs)
unfolding common members present lookup
common-cons m s xs [] h l = refl
common-cons m s xs ((k, t) ∷ ys) h l =
    let rest = common-cons m s xs ys h l.2 in
    elim (Bool-cases (m == k)) [
      | inl e ↦
          let same : m ≡ k = ground arith in
          let off = subst (λ x. lookup x ys ≡ none) (sym same) l.1 in
          let out = subst (λ x. lookup x xs ≡ none) same h in ground (arith, rest, off, out)
      | inr e ↦ ground (arith, rest)
    ]

common-nil : (ys : List (ℕ × ℕ)) → common ys [] ≡ 0
unfolding common members present lookup
common-nil [] = refl
common-nil ((k, t) ∷ ys) = common-nil ys

common_comm : (xs ys : List (ℕ × ℕ)) → IsListing xs → IsListing ys → common xs ys ≡ common ys xs
unfolding common members present
common_comm [] ys lx ly = sym (common-nil ys)
common_comm ((m, s) ∷ xs) ys lx ly =
    ground (arith, common-cons m s xs ys lx.1 ly, common_comm xs ys lx.2 ly)

present-ext :
    (f g : ℕ → Option ℕ) (xs : List ℕ) → ((m : ℕ) → f m ≡ g m) → present f xs ≡ present g xs
unfolding present
present-ext f g [] h = refl
present-ext f g (m ∷ xs) h = ground (arith, h m, present-ext f g xs h)

present-none : (f : ℕ → Option ℕ) (xs : List ℕ) → ((m : ℕ) → f m ≡ none) → present f xs ≡ 0
unfolding present
present-none f [] h = refl
present-none f (m ∷ xs) h = ground (arith, h m, present-none f xs h)

empty_lookup : (xs : List (ℕ × ℕ)) → length xs ≡ 0 → (m : ℕ) → lookup m xs ≡ none
unfolding lookup
empty_lookup [] h m = refl
empty_lookup (x ∷ xs) h m = absurd (omega arith)

pub length-members : (xs : List (ℕ × ℕ)) → length (members xs) ≡ length xs
unfolding members
length-members [] = refl
length-members ((m, s) ∷ xs) = ap suc (length-members xs)

module _ (R : Redis) where
  present-common :
      (y z : R.ZSet)
      → present (R.zscore z) (members (R.zrange y)) ≡ common (R.zrange y) (R.zrange z)
  unfolding common
  present-common y z =
      present-ext (R.zscore z) (λ m. lookup m (R.zrange z)) (members (R.zrange y))
        (λ m. sym (R.lookup-zrange z m))

  -- Whichever of the two is walked, the same number is found.
  present_comm :
      (y z : R.ZSet)
      → present (R.zscore z) (members (R.zrange y)) ≡ present (R.zscore y) (members (R.zrange z))
  present_comm y z =
      present-common y z
      ∙ common_comm (R.zrange y) (R.zrange z) (R.zrange-IsListing y) (R.zrange-IsListing z)
      ∙ sym (present-common z y)

  pub no_children : (ch : R.ZSet) → length (R.zrange ch) ≡ 0 → (m : ℕ) → R.zscore ch m ≡ none
  unfolding lookup
  no_children ch h m = sym (R.lookup-zrange ch m) ∙ empty_lookup (R.zrange ch) h m

  -- `countRoots` is the number of members of a state that are no children, whichever of the two
  -- sets it walks, in chunks of any size.
  pub count_roots-roots :
      (state ch : R.ZSet) (chunk : ℕ)
      → 0 < chunk
      → count_roots R state ch chunk ≡ length (roots (R.zscore ch) (members (R.zrange state)))
  unfolding count_roots
  count_roots-roots state ch chunk pos =
      let n = length (R.zrange state) in
      let split = present-roots (R.zscore ch) (members (R.zrange state)) in
      let all = length-members (R.zrange state) in
      let by_children =
        walk-present (length (R.zrange ch)) (R.zscore state) (members (R.zrange ch)) chunk 0 0 pos
          (omega (arith, length-members (R.zrange ch))) in
      let by_state =
        walk-present n (R.zscore ch) (members (R.zrange state)) chunk 0 0 pos
          (omega (arith, all)) in
      let swap = present_comm ch state in
      elim (Bool-cases (length (R.zrange ch) == 0)) [
        | inl e ↦
            let none_there =
              present-none (R.zscore ch) (members (R.zrange state))
                (no_children ch (ground arith)) in
            ground (arith, e, split, all, none_there)
        | inr e ↦ ground (arith, e, split, all, by_children, by_state, swap)
      ]
