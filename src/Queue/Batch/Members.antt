-- ===== src/Queue/Batch/Members.antt =====
-- The members of a listing and what is taken of them, for the batch calls of toro/queue.py.
use toro.Prelude.{
  ℕ, zero, suc, ◌≤◌, ◌<◌, ◌≡◌, refl, sym, subst, ◌⊎◌, inl, inr, List, [], ◌∷◌, true, Option, some,
  arith, Bool-cases, is_some, ltb, leb, ◌==◌, if◌then◌else◌, count, length, take, take_all,
  length-take, some-inj,
}
use toro.Redis.{lookup}
use toro.Job.{JobState, is_state}
use toro.Scripts.Retention.{live_score}
use toro.Scripts.Roots.{members}
use toro.Queue.Listing.{settled}
use toro.Queue.Batch.Walk.{Has}

pub is_state-path : (a : JobState) (o : Option JobState) → is_state a o ≡ true → o ≡ some a
is_state-path JobState.wait (some JobState.wait) h = refl
is_state-path JobState.active (some JobState.active) h = refl
is_state-path JobState.delayed (some JobState.delayed) h = refl
is_state-path JobState.held (some JobState.held) h = refl
is_state-path JobState.completed (some JobState.completed) h = refl
is_state-path JobState.failed (some JobState.failed) h = refl
is_state-path JobState.cancelled (some JobState.cancelled) h = refl
is_state-path JobState.waiting_children (some JobState.waiting_children) h = refl
is_state-path a o h = cc h

pub is_state_self : (a : JobState) → is_state a (some a) ≡ true
is_state_self JobState.wait = refl
is_state_self JobState.active = refl
is_state_self JobState.delayed = refl
is_state_self JobState.held = refl
is_state_self JobState.completed = refl
is_state_self JobState.failed = refl
is_state_self JobState.cancelled = refl
is_state_self JobState.waiting_children = refl

pub Has-take : (id n : ℕ) (xs : List ℕ) → Has id (take n xs) → Has id xs
unfolding Has
Has-take id zero xs m = absurd m
Has-take id (suc n) [] m = absurd m
Has-take id (suc n) (x ∷ xs) (inl is) = inl is
Has-take id (suc n) (x ∷ xs) (inr m) = inr (Has-take id n xs m)

-- The front of a list has as many as were asked for, or is the whole of it.
pub take_front : (n : ℕ) (xs : List ℕ) → (n ≤ length (take n xs)) ⊎ (take n xs ≡ xs)
take_front n xs = elim (Bool-cases (leb (length xs) n)) [
  | inl few ↦ inr (take_all n xs (ground (arith, few)))
  | inr more ↦ inl (ground (arith, more, length-take n xs))
]

pub Has-count : (id : ℕ) (xs : List ℕ) → Has id xs → 0 < count id xs
unfolding Has count
Has-count id [] m = absurd m
Has-count id (x ∷ xs) (inl is) = let e : x ≡ id = sym is in ground (arith, e)
Has-count id (x ∷ xs) (inr m) = ground (arith, Has-count id xs m)

pub count-Has : (id : ℕ) (xs : List ℕ) → 0 < count id xs → Has id xs
unfolding Has count
count-Has id [] h = absurd (omega arith)
count-Has id (x ∷ xs) h = elim (Bool-cases (x == id)) [
  | inl e ↦ let is : id ≡ x = ground arith in inl is
  | inr e ↦ inr (count-Has id xs (ground (arith, e, h)))
]

pub Has-members : (id : ℕ) (xs : List (ℕ × ℕ)) → Has id (members xs) → is_some (lookup id xs) ≡ true
unfolding Has members lookup
Has-members id [] m = absurd m
Has-members id ((x, score) ∷ xs) m = elim (Bool-cases (x == id)) [
  | inl e ↦ rw e refl
  | inr e ↦
      rw e
        (elim m [ inl is ↦ absurd (ground (arith, e, is)) | inr later ↦ Has-members id xs later ])
]

pub members-Has : (id : ℕ) (xs : List (ℕ × ℕ)) → is_some (lookup id xs) ≡ true → Has id (members xs)
unfolding Has members lookup
members-Has id [] h = cc h
members-Has id ((x, score) ∷ xs) h = elim (Bool-cases (x == id)) [
  | inl e ↦ let is : id ≡ x = ground arith in inl is
  | inr e ↦ inr (members-Has id xs (ground (arith, e, h)))
]

pub settled-members : (id : ℕ) (xs : List (ℕ × ℕ)) → Has id (settled xs) → Has id (members xs)
unfolding Has members settled
settled-members id [] m = absurd m
settled-members id ((x, score) ∷ xs) m = elim (Bool-cases (ltb score live_score)) [
  | inl e ↦ elim (subst (λ b. Has id (if b then x ∷ settled xs else settled xs)) e m) [
    | inl is ↦ inl is
    | inr later ↦ inr (settled-members id xs later)
  ]
  | inr e ↦
      inr
        (settled-members id xs (subst (λ b. Has id (if b then x ∷ settled xs else settled xs)) e m))
]

pub settled-Has :
    (id k : ℕ) (xs : List (ℕ × ℕ))
    → lookup id xs ≡ some k
    → ltb k live_score ≡ true
    → Has id (settled xs)
unfolding Has settled lookup
settled-Has id k [] h below = cc h
settled-Has id k ((x, score) ∷ xs) h below = elim (Bool-cases (x == id)) [
  | inl e ↦
      let is : id ≡ x = ground arith in
      let scored : score ≡ k =
        some-inj (subst (λ b. (if b then some score else lookup id xs) ≡ some k) e h) in
      let low : ltb score live_score ≡ true =
        subst (λ n. ltb n live_score ≡ true) (sym scored) below in
      subst (λ b. Has id (if b then x ∷ settled xs else settled xs)) (sym low) (inl is)
  | inr e ↦
      let later =
        settled-Has id k xs (subst (λ b. (if b then some score else lookup id xs) ≡ some k) e h)
          below in
      elim (Bool-cases (ltb score live_score)) [
        | inl low ↦
            subst (λ b. Has id (if b then x ∷ settled xs else settled xs)) (sym low) (inr later)
        | inr high ↦ subst (λ b. Has id (if b then x ∷ settled xs else settled xs)) (sym high) later
      ]
]
