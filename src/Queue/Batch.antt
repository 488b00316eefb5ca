-- ===== src/Queue/Batch.antt =====
-- toro/queue.py: the calls that run one script for each of many jobs (`clean`, `retry_all_failed`,
-- `retry_flow`), as a pipeline of scripts one after another.
pub mod Reached
pub mod Walk
mod Members
pub mod Cleaned
use toro.Prelude.{
  ℕ, zero, suc, ◌+◌, List, [], ◌∷◌, ◌++◌, Bool, true, false, Option, none, some, if◌then◌else◌,
  is_some,
}
use toro.Redis.{Redis}
use toro.Job.{JobState}
use toro.Store.{Store, hget}
use toro.Scripts.Admin.{retry_job}
use toro.Scripts.Remove.{remove_job}
use toro.Queue.Listing.{ids_of}

abbrev pub listed : Option (List ℕ) → List ℕ
listed none = []
listed (some cids) = cids

module _ {R : Redis} where
  unfoldable pub remove_each : List ℕ → ℕ → Store R → Store R
  remove_each [] now s = s
  remove_each (id ∷ ids) now s = remove_each ids now (remove_job s id now).0

  -- `HEXISTS <job> timestamp`, before the removals.
  unfoldable pub count_there : Store R → List ℕ → ℕ
  count_there s [] = 0
  count_there s (id ∷ ids) =
      let rest = count_there s ids in
      if is_some (hget s id (λ j. j.timestamp)) then suc rest else rest

  -- `Queue.clean`: how many of the listed jobs were there to remove.
  unfoldable pub clean : Store R → JobState → ℕ → ℕ → Store R × ℕ
  unfolding remove_each count_there
  clean s state limit now =
      let ids = ids_of s state limit false in (remove_each ids now s, count_there s ids)

  -- RETRY_JOB for each, and how many were retried.
  unfoldable pub retry_each : List ℕ → ℕ → Store R → Store R × ℕ
  retry_each [] now s = (s, 0)
  retry_each (id ∷ ids) now s =
      let (s1, retried) = retry_job s id now in
      let (s2, n) = retry_each ids now s1 in (s2, if retried then suc n else n)

  -- `Queue.retry_all_failed`
  unfoldable pub retry_all_failed : Store R → ℕ → ℕ → Store R × ℕ
  unfolding retry_each
  retry_all_failed s limit now = retry_each (ids_of s JobState.failed limit true) now s

  unfoldable pub next_level : Store R → List ℕ → List ℕ
  next_level s [] = []
  next_level s (id ∷ ids) = listed (hget s id (λ j. j.children)) ++ next_level s ids

  -- `Queue._subtree_ids`, level by level, on fuel.
  unfoldable pub subtree_ids : ℕ → Store R → List ℕ → List ℕ
  unfolding next_level
  subtree_ids zero s level = []
  subtree_ids (suc fuel) s [] = []
  subtree_ids (suc fuel) s (id ∷ ids) = (id ∷ ids) ++ subtree_ids fuel s (next_level s (id ∷ ids))

  -- `Queue.retry_flow`; a flow is no deeper than the ids that were minted.
  unfoldable pub retry_flow : Store R → ℕ → ℕ → Store R × ℕ
  unfolding subtree_ids retry_each
  retry_flow s parent now = retry_each (subtree_ids (suc s.next_id) s (parent ∷ [])) now s

  -- `Queue.pause` and `Queue.resume`
  unfoldable pub pause : Store R → Store R
  pause s = record s { paused = true }

  unfoldable pub resume : Store R → Store R
  resume s = record s { paused = false; marker = R.zadd s.marker 0 0 }
