-- ===== src/Queue/Batch/Walk.antt =====
-- toro/queue.py, `Queue._subtree_ids`: the walk down a flow finds every job of it.
use toro.Prelude.{
  ℕ, zero, suc, ◌+◌, ◌≤◌, ◌<◌, ◌≡◌, refl, sym, subst, ◌↔◌, ◌⊎◌, inl, inr, Option, none, some, List,
  [], ◌∷◌, ◌++◌, arith,
}
use toro.Redis.{Redis}
use toro.Store.{Store, hget}
use toro.Queue.Batch.{listed, next_level, subtree_ids}

-- Each id of the list lies between the two.
unfoldable pub Within : ℕ → ℕ → List ℕ → Type 0
Within low high [] = Unit {0}
Within low high (id ∷ ids) = (low ≤ id) × (id ≤ high) × Within low high ids

Within-append :
    (low high : ℕ) (xs ys : List ℕ)
    → Within low high xs
    → Within low high ys
    → Within low high (xs ++ ys)
unfolding Within
Within-append low high [] ys h k = k
Within-append low high (x ∷ xs) ys (a, b, h) k = (a, b, Within-append low high xs ys h k)

Within-lower :
    (low other high : ℕ) (xs : List ℕ) → low ≤ other → Within other high xs → Within low high xs
unfolding Within
Within-lower low other high [] le h = tt
Within-lower low other high (x ∷ xs) le (a, b, h) =
    (omega arith, b, Within-lower low other high xs le h)

unfoldable pub Has : ℕ → List ℕ → Type 0
Has id [] = ⊥
Has id (x ∷ xs) = (id ≡ x) ⊎ Has id xs

Has-left : (id : ℕ) (xs ys : List ℕ) → Has id xs → Has id (xs ++ ys)
unfolding Has
Has-left id [] ys m = absurd m
Has-left id (x ∷ xs) ys (inl is) = inl is
Has-left id (x ∷ xs) ys (inr m) = inr (Has-left id xs ys m)

Has-right : (id : ℕ) (xs ys : List ℕ) → Has id ys → Has id (xs ++ ys)
unfolding Has
Has-right id [] ys m = m
Has-right id (x ∷ xs) ys m = inr (Has-right id xs ys m)

Has-split : (id : ℕ) (xs ys : List ℕ) → Has id (xs ++ ys) → Has id xs ⊎ Has id ys
unfolding Has
Has-split id [] ys m = inr m
Has-split id (x ∷ xs) ys (inl is) = inl (inl is)
Has-split id (x ∷ xs) ys (inr m) = elim (Has-split id xs ys m) [
  | inl here ↦ inl (inr here)
  | inr later ↦ inr later
]

listed-some :
    (o : Option (List ℕ)) (id : ℕ)
    → Has id (listed o)
    → (cids : List ℕ) × (o ≡ some cids) × Has id cids
unfolding Has
listed-some none id m = absurd m
listed-some (some cids) id m = (cids, refl, m)

module _ {R : Redis} where
  -- The children of a job have ids above its own, and none above the last that was minted.
  abbrev pub IsMinted : Store R → Type 0
  IsMinted s = (id : ℕ) → Within (suc id) s.next_id (listed (hget s id (λ j. j.children)))

  next_level-Within :
      (s : Store R) (low : ℕ) (level : List ℕ)
      → IsMinted s
      → Within low s.next_id level
      → Within (suc low) s.next_id (next_level s level)
  unfolding next_level Within
  next_level-Within s low [] minted h = tt
  next_level-Within s low (id ∷ ids) minted (a, b, h) =
      Within-append (suc low) s.next_id (listed (hget s id (λ j. j.children))) (next_level s ids)
        (Within-lower (suc low) (suc id) s.next_id (listed (hget s id (λ j. j.children)))
          (omega arith) (minted id))
        (next_level-Within s low ids minted h)

  abbrev pub children_at : Store R → ℕ → List ℕ
  children_at s id = listed (hget s id (λ j. j.children))

  -- The jobs of a flow: the root, and the children of each.
  pub data IsBelow (s : Store R) (root : ℕ) : ℕ → Type 0 where
    top : IsBelow s root root
    down :
        (id child : ℕ) (cids : List ℕ)
        → IsBelow s root id
        → hget s id (λ j. j.children) ≡ some cids
        → Has child cids
        → IsBelow s root child

  next_level-Has :
      (s : Store R) (level : List ℕ) (id child : ℕ)
      → Has id level
      → Has child (children_at s id)
      → Has child (next_level s level)
  unfolding next_level Has
  next_level-Has s [] id child m c = absurd m
  next_level-Has s (x ∷ xs) id child (inl is) c =
      Has-left child (children_at s x) (next_level s xs)
        (subst (λ y. Has child (children_at s y)) is c)
  next_level-Has s (x ∷ xs) id child (inr more) c =
      Has-right child (children_at s x) (next_level s xs) (next_level-Has s xs id child more c)

  next_level-IsBelow :
      (s : Store R) (root : ℕ) (level : List ℕ)
      → ((id : ℕ) → Has id level → IsBelow s root id)
      → (id : ℕ) → Has id (next_level s level)
      → IsBelow s root id
  unfolding next_level Has
  next_level-IsBelow s root [] h id m = absurd m
  next_level-IsBelow s root (x ∷ xs) h id m =
      elim (Has-split id (children_at s x) (next_level s xs) m) [
        | inl here ↦
            let (cids, is, there) = listed-some (hget s x (λ j. j.children)) id here in
            IsBelow.down x id cids (h x (inl refl)) is there
        | inr later ↦ next_level-IsBelow s root xs (λ i k. h i (inr k)) id later
      ]

  -- What the walk from a level finds lies below the root, if the level does.
  subtree_ids-IsBelow :
      (fuel : ℕ) (s : Store R) (root : ℕ) (level : List ℕ)
      → ((id : ℕ) → Has id level → IsBelow s root id)
      → (id : ℕ) → Has id (subtree_ids fuel s level)
      → IsBelow s root id
  unfolding subtree_ids Has
  subtree_ids-IsBelow zero s root level h id m = absurd m
  subtree_ids-IsBelow (suc fuel) s root [] h id m = absurd m
  subtree_ids-IsBelow (suc fuel) s root (x ∷ xs) h id m =
      elim (Has-split id (x ∷ xs) (subtree_ids fuel s (next_level s (x ∷ xs))) m) [
        | inl here ↦ h id here
        | inr later ↦
            subtree_ids-IsBelow fuel s root (next_level s (x ∷ xs))
              (next_level-IsBelow s root (x ∷ xs) h) id later
      ]

  -- It finds the level, and with each job its children.
  subtree_ids-closed :
      (fuel low : ℕ) (s : Store R) (level : List ℕ)
      → IsMinted s
      → Within low s.next_id level
      → s.next_id < low + fuel
      → ((id : ℕ) → Has id level → Has id (subtree_ids fuel s level))
        × ((id child : ℕ)
            → Has id (subtree_ids fuel s level)
            → Has child (children_at s id)
            → Has child (subtree_ids fuel s level))
  unfolding subtree_ids Within Has
  subtree_ids-closed zero low s [] minted h deep = (λ id m. m, λ id child m c. absurd m)
  subtree_ids-closed zero low s (x ∷ xs) minted (a, b, h) deep = absurd (omega arith)
  subtree_ids-closed (suc fuel) low s [] minted h deep = (λ id m. m, λ id child m c. absurd m)
  subtree_ids-closed (suc fuel) low s (x ∷ xs) minted h deep =
      let (found, closed) =
        subtree_ids-closed fuel (suc low) s (next_level s (x ∷ xs)) minted
          (next_level-Within s low (x ∷ xs) minted h) (omega arith) in
      let rest = subtree_ids fuel s (next_level s (x ∷ xs)) in
      (
        λ id m. Has-left id (x ∷ xs) rest m,
        λ id child m c. Has-right child (x ∷ xs) rest (elim (Has-split id (x ∷ xs) rest m) [
          | inl here ↦ found child (next_level-Has s (x ∷ xs) id child here c)
          | inr later ↦ closed id child later c
        ]),
      )

  -- The walk down a flow has exactly the jobs of it: the root, the children of each, and nothing else,
  -- where ids are minted as ADD_FLOW does. A level for each id that was minted is enough fuel.
  pub subtree_ids-whole :
      (s : Store R) (parent id : ℕ)
      → IsMinted s
      → parent ≤ s.next_id
      → Has id (subtree_ids (suc s.next_id) s (parent ∷ [])) ↔ IsBelow s parent id
  unfolding Within Has
  subtree_ids-whole s parent id minted known =
      let (found, closed) =
        subtree_ids-closed (suc s.next_id) 0 s (parent ∷ []) minted (omega arith, known, tt)
          (omega arith) in
      (
        subtree_ids-IsBelow (suc s.next_id) s parent (parent ∷ []) (λ i m. at_root i m) id,
        λ b. reached found closed id b,
      )
    where
      at_root : (i : ℕ) → (i ≡ parent) ⊎ ⊥ → IsBelow s parent i
      at_root i (inl is) = subst (λ x. IsBelow s parent x) (sym is) IsBelow.top
      at_root i (inr no_more) = absurd no_more

      reached :
          ((i : ℕ) → Has i (parent ∷ []) → Has i (subtree_ids (suc s.next_id) s (parent ∷ [])))
          → ((i c : ℕ)
              → Has i (subtree_ids (suc s.next_id) s (parent ∷ []))
              → Has c (children_at s i)
              → Has c (subtree_ids (suc s.next_id) s (parent ∷ [])))
          → (i : ℕ) → IsBelow s parent i
          → Has i (subtree_ids (suc s.next_id) s (parent ∷ []))
      reached found closed _ IsBelow.top = found parent (inl refl)
      reached found closed _ (IsBelow.down i c cids b is m) =
          closed i c (reached found closed i b) (subst (λ o. Has c (listed o)) (sym is) m)
