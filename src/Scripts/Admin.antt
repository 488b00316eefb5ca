-- ===== src/Scripts/Admin.antt =====
-- toro/scripts.py: the scripts of the producer's and the dashboard's actions on one job:
-- `UPDATE_PROGRESS`, `APPEND_LOG`, `STAMP_MODEL`, `PROMOTE_JOB`, `RETRY_JOB`.
use toro.Prelude.{
  ℕ, suc, List, [], ◌∷◌, ◌++◌, Bool, true, false, Option, none, some, String, ltb, if◌then◌else◌,
  is_some, update, get_or_else, length,
}
use toro.Redis.{Redis}
use toro.Job.{Job, JobState}
use toro.Store.{Store, Event, hget, hset, state_of, publish}
use toro.Scripts.Order.{enqueue}
use toro.Scripts.Retention.{revive_subtree, children_of}
use toro.Scripts.Flow.{sadd, take_and_enqueue}

-- Whether a parent that is retried waits on a child in this state again.
abbrev pub waits_again : Option JobState → Bool
waits_again none = false
waits_again (some JobState.completed) = false
waits_again (some JobState.cancelled) = false
waits_again (some _) = true

abbrev pub clear_failure : Job → Job
clear_failure j = record j {
  failed_reason = none;
  finished_on = none;
  cancel = false;
  cancel_reason = none;
  stalled_counter = 0;
}

module _ {R : Redis} where
  -- A job is a hash that was stamped at its add.
  abbrev pub is_job : Store R → ℕ → Bool
  is_job s id = is_some (hget s id (λ j. j.timestamp))

  unfoldable pub update_progress : Store R → ℕ → String → Store R × Bool
  update_progress s id value =
      if is_job s id
      then (
        publish (hset s id (λ j. record j { progress = some value })) (Event.job_progress id),
        true,
      )
      else (s, false)

  unfoldable pub append_log : Store R → ℕ → String → Store R × ℕ
  append_log s id line =
      if is_job s id
      then (let lines = s.logs id ++ line ∷ [] in
          (record s { logs = update s.logs id lines }, length lines))
      else (s, 0)

  -- HSETNX, and what the queue holds either way.
  unfoldable pub stamp_model : Store R → ℕ → Store R × ℕ
  stamp_model s version = let m = get_or_else s.model version in (record s { model = some m }, m)

  unfoldable pub promote_job : Store R → ℕ → ℕ → Store R × Bool
  unfolding enqueue
  promote_job s id now =
      if is_some (R.zscore s.delayed id)
      then (let s1 = record s { delayed = R.zrem s.delayed id } in
          let s2 = hset s1 id (λ j. record j { state = some JobState.wait; delay = 0 }) in
          (enqueue s2 id (hget s1 id (λ j. j.priority)) now, true))
      else (s, false)

  -- A child retried leaves its parent's record of failures, and joins a parked parent's barrier.
  unfoldable pub rejoin_parent : Option ℕ → Store R → ℕ → Store R
  unfolding sadd
  rejoin_parent none s id = s
  rejoin_parent (some parent) s id =
      let s1 = record s { cfail = update s.cfail parent (update (s.cfail parent) id none) } in
      if is_some (R.zscore s1.waiting_children parent)
      then record s1 { deps = update s1.deps parent (sadd id (s1.deps parent)) }
      else s1

  unfoldable pub rearm : Store R → ℕ → List ℕ → Store R
  unfolding sadd
  rearm s id [] = s
  rearm s id (cid ∷ cids) =
      rearm
        (if waits_again (state_of s cid)
          then record s { deps = update s.deps id (sadd cid (s.deps id)) }
          else s)
        id cids

  unfoldable pub retry_job : Store R → ℕ → ℕ → Store R × Bool
  unfolding revive_subtree rejoin_parent rearm take_and_enqueue
  retry_job s id now =
      if is_some (R.zscore s.failed id)
      then (let s1 = hset (record s { failed = R.zrem s.failed id }) id clear_failure in
          let parent = hget s1 id (λ j. j.parent_id) in
          let s2 = if is_some parent then s1 else revive_subtree (suc s1.next_id) id now s1 id in
          let s3 = rejoin_parent parent s2 id in
          let s4 = rearm s3 id (children_of (hget s3 id (λ j. j.children))) in
          let parked = hset s4 id (λ j. record j { state = some JobState.waiting_children }) in
          let queued =
            take_and_enqueue s4 id (hget s4 id (λ j. j.ckey)) (hget s4 id (λ j. j.priority)) now in
          (
            if ltb 0 (length (s4.deps id))
                then record parked { waiting_children = R.zadd parked.waiting_children now id }
                else queued,
            true,
          ))
      else (s, false)
