-- ===== src/Placement.antt =====
-- The places of a queue's jobs between two scripts of toro/scripts.py: a job's collection, and the
-- holder of a concurrency key.
pub mod Moves
pub mod Keys
pub mod Removal
pub mod Trim
pub mod Record
pub mod Hands
pub mod Claims
pub mod Flows
pub mod Guards
pub mod Finishes
pub mod Adds
pub mod Actions
pub mod Stops
pub mod Recovery
pub mod Trees
pub mod Retries
pub mod Reach
use toro.Prelude.{
  ℕ, ◌≡◌, ◌≢◌, Bool, true, false, Option, none, some, ◌&&◌, is_some, eq_option, count,
  if◌then◌else◌,
}
use toro.Redis.{Redis}
use toro.Job.{JobState, is_state}
use toro.Store.{Store, hget, state_of}

-- A job in one of these states holds its concurrency key.
abbrev pub runs : Option JobState → Bool
runs (some JobState.wait) = true
runs (some JobState.active) = true
runs (some JobState.delayed) = true
runs _ = false

module _ {R : Redis} where
  abbrev pub ckey_of : Store R → ℕ → Option ℕ
  ckey_of s id = hget s id (λ j. j.ckey)

  -- One job is in the collection of its state, once, and in no other.
  abbrev pub PlacedAt : Store R → ℕ → Type 0
  PlacedAt s j =
      (is_some (R.zscore s.prioritized j) ≡ is_state JobState.wait (state_of s j))
      × (is_some (R.zscore s.delayed j) ≡ is_state JobState.delayed (state_of s j))
      × (is_some (R.zscore s.held j) ≡ is_state JobState.held (state_of s j))
      × (is_some (R.zscore s.completed j) ≡ is_state JobState.completed (state_of s j))
      × (is_some (R.zscore s.failed j) ≡ is_state JobState.failed (state_of s j))
      × (is_some (R.zscore s.cancelled j) ≡ is_state JobState.cancelled (state_of s j))
      × (is_some (R.zscore s.waiting_children j)
          ≡ is_state JobState.waiting_children (state_of s j))
      × (count j s.active ≡ (if is_state JobState.active (state_of s j) then 1 else 0))

  -- One job waits behind a key exactly if it is held and the key is its own, and it is the key's
  -- holder exactly if it may run and the key is its own.
  abbrev pub KeyedAt : Store R → ℕ → ℕ → Type 0
  KeyedAt s j k =
      (is_some (R.zscore (s.held_for k) j)
        ≡ (is_state JobState.held (state_of s j) && eq_option (ckey_of s j) (some k)))
      × (eq_option (s.ck k) (some j) ≡ (runs (state_of s j) && eq_option (ckey_of s j) (some k)))

  -- A job that stands in no collection.
  abbrev pub Nowhere : Store R → ℕ → Type 0
  Nowhere s j =
      (is_some (R.zscore s.prioritized j) ≡ false)
      × (is_some (R.zscore s.delayed j) ≡ false)
      × (is_some (R.zscore s.held j) ≡ false)
      × (is_some (R.zscore s.completed j) ≡ false)
      × (is_some (R.zscore s.failed j) ≡ false)
      × (is_some (R.zscore s.cancelled j) ≡ false)
      × (is_some (R.zscore s.waiting_children j) ≡ false)
      × (count j s.active ≡ 0)

  -- Such a job's key: it waits behind none, and holds its own if `holding`.
  abbrev pub KeyInHand : Bool → Store R → ℕ → ℕ → Type 0
  KeyInHand holding s id k =
      (is_some (R.zscore (s.held_for k) id) ≡ false)
      × (eq_option (s.ck k) (some id) ≡ (holding && eq_option (ckey_of s id) (some k)))

  -- Every job but one is in place, and that one is in a script's hand.
  -- Its hash still names the state that it `was` in.
  pub record InHand (holding : Bool) (was : Option JobState) (s : Store R) (id : ℕ) : Type 0 where
    pub state : state_of s id ≡ was
    pub placed : (j : ℕ) → id ≢ j → PlacedAt s j
    pub keyed : (j k : ℕ) → id ≢ j → KeyedAt s j k
    pub nowhere : Nowhere s id
    pub key : (k : ℕ) → KeyInHand holding s id k

  -- Every job is in place.
  pub record IsPlaced (s : Store R) : Type 0 where
    pub placed : (j : ℕ) → PlacedAt s j
    pub keyed : (j k : ℕ) → KeyedAt s j k

  -- What a script that may raise leaves: it raises before its first write.
  abbrev pub Returned {ℓ} : {A : Type ℓ} → Option (Store R × A) → Type 0
  Returned none = Unit {0}
  Returned (some r) = IsPlaced r.0
