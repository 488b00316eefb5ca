-- ===== src/Redis/Backed.antt =====
-- Sorted sets as association lists: the interface can be met, and the tests run over it.
use toro.Prelude.{
  ℕ, zero, suc, ◌*◌, ◌≤◌, ◌≡◌, refl, ap, ◌∙◌, Bool, none, some, List, [], ◌∷◌, arith, leb, ◌==◌,
  if◌then◌else◌, Bool-cases, inl, inr,
}
use toro.Redis.{Redis, lookup, AllAbove, IsListing, entries_where, missing}

unfoldable pub without : ℕ → List (ℕ × ℕ) → List (ℕ × ℕ)
without n [] = []
without n ((m, s) ∷ rest) = let r = without n rest in if m == n then r else (m, s) ∷ r

unfoldable pub insert : ℕ → ℕ → List (ℕ × ℕ) → List (ℕ × ℕ)
insert m s [] = (m, s) ∷ []
insert m s ((n, t) ∷ rest) = if leb s t then (m, s) ∷ (n, t) ∷ rest else (n, t) ∷ insert m s rest

-- The newest entry of a member counts.
unfoldable pub listing : List (ℕ × ℕ) → List (ℕ × ℕ)
unfolding without insert
listing [] = []
listing ((m, s) ∷ rest) = insert m s (without m (listing rest))

pub lookup-without :
    (m n : ℕ) (l : List (ℕ × ℕ)) → lookup n (without m l) ≡ (if m == n then none else lookup n l)
unfolding lookup without
lookup-without m n [] = ground arith
lookup-without m n ((k, s) ∷ l) = ground (arith, lookup-without m n l)

lookup-insert :
    (m s n : ℕ) (l : List (ℕ × ℕ))
    → lookup m l ≡ none
    → lookup n (insert m s l) ≡ (if m == n then some s else lookup n l)
unfolding lookup insert
lookup-insert m s n [] h = ground arith
lookup-insert m s n ((k, t) ∷ l) h = ground (arith, lookup-insert m s n l)

pub lookup-listing : (l : List (ℕ × ℕ)) (n : ℕ) → lookup n (listing l) ≡ lookup n l
unfolding listing lookup
lookup-listing [] n = refl
lookup-listing ((m, s) ∷ l) n = ground (
  arith,
  lookup-insert m s n (without m (listing l)),
  lookup-without m m (listing l),
  lookup-without m n (listing l),
  lookup-listing l n,
)

AllAbove-without : (m s : ℕ) (l : List (ℕ × ℕ)) → AllAbove s l → AllAbove s (without m l)
unfolding without
AllAbove-without m s [] h = tt
AllAbove-without m s ((k, t) ∷ l) h = elim (Bool-cases (k == m)) [
  | inl e ↦ rw e (AllAbove-without m s l h.1)
  | inr e ↦ rw e (h.0, AllAbove-without m s l h.1)
]

AllAbove-insert : (m t s : ℕ) (l : List (ℕ × ℕ)) → s ≤ t → AllAbove s l → AllAbove s (insert m t l)
unfolding insert
AllAbove-insert m t s [] h a = (h, tt)
AllAbove-insert m t s ((k, u) ∷ l) h a = elim (Bool-cases (leb t u)) [
  | inl e ↦ rw e (h, a)
  | inr e ↦ rw e (a.0, AllAbove-insert m t s l h a.1)
]

AllAbove-weaken : (s t : ℕ) (l : List (ℕ × ℕ)) → s ≤ t → AllAbove t l → AllAbove s l
AllAbove-weaken s t [] h a = tt
AllAbove-weaken s t ((k, u) ∷ l) h a = (omega arith, AllAbove-weaken s t l h a.1)

without-IsListing : (m : ℕ) (l : List (ℕ × ℕ)) → IsListing l → IsListing (without m l)
unfolding without
without-IsListing m [] h = tt
without-IsListing m ((k, s) ∷ l) h = elim (Bool-cases (k == m)) [
  | inl e ↦ rw e (without-IsListing m l h.2)
  | inr e ↦
      rw e (
        AllAbove-without m s l h.0,
        ground (arith, lookup-without m k l),
        without-IsListing m l h.2,
      )
]

insert-IsListing :
    (m s : ℕ) (l : List (ℕ × ℕ)) → lookup m l ≡ none → IsListing l → IsListing (insert m s l)
unfolding insert
insert-IsListing m s [] e h = (tt, unfold lookup in refl, tt)
insert-IsListing m s ((k, t) ∷ l) e h = elim (Bool-cases (leb s t)) [
  | inl c ↦ rw c ((ground arith, AllAbove-weaken s t l (ground arith) h.0), e, h)
  | inr c ↦ rw c (
    AllAbove-insert m s t l (ground arith) h.0,
    unfold lookup in ground (arith, lookup-insert m s k l),
    insert-IsListing m s l (unfold lookup in ground arith) h.2,
  )
]

pub listing-IsListing : (l : List (ℕ × ℕ)) → IsListing (listing l)
unfolding listing
listing-IsListing [] = tt
listing-IsListing ((m, s) ∷ l) =
    insert-IsListing m s (without m (listing l)) (ground (arith, lookup-without m m (listing l)))
      (without-IsListing m (listing l) (listing-IsListing l))

pub zscore-nil : (n : ℕ) → lookup n [] ≡ none
unfolding lookup
zscore-nil n = refl

pub zscore-cons :
    (z : List (ℕ × ℕ)) (s m n : ℕ) → lookup n ((m, s) ∷ z) ≡ (if m == n then some s else lookup n z)
unfolding lookup
zscore-cons z s m n = refl

-- What is left of a listing is a listing, and listing it again changes nothing.
AllAbove-entries_where :
    (keep : ℕ → Bool) (s : ℕ) (l : List (ℕ × ℕ)) → AllAbove s l → AllAbove s (entries_where keep l)
unfolding entries_where
AllAbove-entries_where keep s [] h = tt
AllAbove-entries_where keep s ((k, t) ∷ l) h = elim (Bool-cases (keep k)) [
  | inl e ↦ rw e (h.0, AllAbove-entries_where keep s l h.1)
  | inr e ↦ rw e (AllAbove-entries_where keep s l h.1)
]

lookup-entries_where :
    (keep : ℕ → Bool) (n : ℕ) (l : List (ℕ × ℕ))
    → lookup n l ≡ none
    → lookup n (entries_where keep l) ≡ none
unfolding entries_where lookup
lookup-entries_where keep n [] h = refl
lookup-entries_where keep n ((k, t) ∷ l) h =
    ground (arith, lookup-entries_where keep n l (ground arith))

entries_where-IsListing :
    (keep : ℕ → Bool) (l : List (ℕ × ℕ)) → IsListing l → IsListing (entries_where keep l)
unfolding entries_where
entries_where-IsListing keep [] h = tt
entries_where-IsListing keep ((k, t) ∷ l) h = elim (Bool-cases (keep k)) [
  | inl e ↦ rw e (
    AllAbove-entries_where keep t l h.0,
    lookup-entries_where keep k l h.1,
    entries_where-IsListing keep l h.2,
  )
  | inr e ↦ rw e (entries_where-IsListing keep l h.2)
]

without-missing : (m : ℕ) (l : List (ℕ × ℕ)) → lookup m l ≡ none → without m l ≡ l
unfolding without lookup
without-missing m [] h = refl
without-missing m ((k, s) ∷ l) h = ground (arith, without-missing m l (ground arith))

insert-front : (m s : ℕ) (l : List (ℕ × ℕ)) → AllAbove s l → insert m s l ≡ (m, s) ∷ l
unfolding insert
insert-front m s [] h = refl
insert-front m s ((k, t) ∷ l) h = ground (arith, h.0)

listing_idem : (l : List (ℕ × ℕ)) → IsListing l → listing l ≡ l
unfolding listing
listing_idem [] h = refl
listing_idem ((m, s) ∷ l) h =
    ap (insert m s) (ap (without m) (listing_idem l h.2) ∙ without-missing m l h.1)
    ∙ insert-front m s l h.0

pub listing-entries_where :
    (keep : ℕ → Bool) (l : List (ℕ × ℕ))
    → listing (entries_where keep (listing l)) ≡ entries_where keep (listing l)
listing-entries_where keep l =
    listing_idem (entries_where keep (listing l))
      (entries_where-IsListing keep (listing l) (listing-IsListing l))

-- How often 20 * 1.5 ^ k stays within the duration, exactly, for k from 1.
unfoldable pub log_steps : ℕ → ℕ → ℕ → ℕ
log_steps zero dur bound = 0
log_steps (suc f) dur bound =
    let rest = log_steps f (dur * 2) (bound * 3) in
    if leb (bound * 3) (dur * 2) then suc rest else 0

abbrev pub backed : Redis
backed = record {
  ZSet = List (ℕ × ℕ);
  empty = [];
  zadd = λ z s m. (m, s) ∷ z;
  zrem = λ z m. without m z;
  zscore = λ z n. lookup n z;
  zrange = listing;
  zdiff = λ y z. entries_where (λ m. missing (lookup m z)) (listing y);
  log_ratio = λ n. log_steps 30 n 20;
  zscore-empty = zscore-nil;
  zscore-zadd = zscore-cons;
  zscore-zrem = λ z m n. lookup-without m n z;
  lookup-zrange = λ z n. lookup-listing z n;
  zrange-IsListing = listing-IsListing;
  zrange-zdiff = λ y z. listing-entries_where (λ m. missing (lookup m z)) y;
}
