-- ===== src/Scripts/Run.antt =====
-- toro/scripts.py, `_LIB`: the guards of a commit (`claimedBy`, `releaseRun`), the memo by which a
-- finish answers the same thing twice, and `lockAndLoad`.
use toro.Prelude.{
  ℕ, ◌+◌, Bool, true, ◌&&◌, Option, none, some, leb, ◌==◌, if◌then◌else◌, update, get_or_else,
  eq_option, remove_all, count,
}
use toro.Redis.{Redis}
use toro.Job.{Job, JobState, blank}
use toro.Store.{Store, Memo, hget, hset}

-- What a finish script answers.
pub data Reply : Type 0 where
  lock_lost not_active : Reply
  done : ℕ → Reply
  done_job : ℕ → Job → ℕ → Reply
  done_due : ℕ → ℕ → Reply

-- A claim's `processedOn`; none stands for "", which is not checked.
unfoldable pub claim_matches : Option ℕ → Option ℕ → Bool
claim_matches none processed = true
claim_matches (some c) processed = eq_option processed (some c)

-- The run's stamp: one later than the last claim's, if that is not earlier.
unfoldable pub run_stamp : Option ℕ → ℕ → ℕ
run_stamp none now = now
run_stamp (some last) now = if leb now last then last + 1 else now

module _ {R : Redis} where
  unfoldable pub claimed_by : Store R → ℕ → Option ℕ → Bool
  unfolding claim_matches
  claimed_by s id claim = claim_matches claim (hget s id (λ j. j.processed_on))

  -- The lock is this worker's and the claim this run's.
  unfoldable pub owns : Store R → ℕ → ℕ → Option ℕ → Bool
  unfolding claimed_by
  owns s token id claim = eq_option (s.lock id) (some token) && claimed_by s id claim

  -- `some` reply refuses the commit.
  unfoldable pub release_run : Store R → ℕ → ℕ → Option ℕ → Store R × Option Reply
  unfolding owns count
  release_run s token id claim =
      if owns s token id claim
      then (let s1 = record s { lock = update s.lock id none } in
          if count id s1.active == 0
          then (s1, some not_active)
          else (record s1 { active = remove_all id s1.active }, none))
      else (s, some lock_lost)

  unfoldable pub recall_memo : Option Memo → Store R → ℕ → Option Reply
  recall_memo none s token = none
  recall_memo (some m) s token = elim m.next_id [
    | none ↦ some (done m.outcome)
    | some n ↦
        if eq_option (s.lock n) (some token)
        then some (done_job m.outcome (get_or_else (s.jobs n) blank) n)
        else some (done m.outcome)
  ]

  unfoldable pub recall_finish : Store R → ℕ → ℕ → Option ℕ → Option Reply
  unfolding recall_memo
  recall_finish s token id claim = recall_memo (s.fin token id claim) s token

  unfoldable pub remember_finish : Store R → ℕ → ℕ → Option ℕ → ℕ → Option ℕ → ℕ → Store R
  remember_finish s token id claim outcome next_id ttl_ms = if ttl_ms == 0 then s else record s {
    fin = λ t j c.
        if (t == token) && (j == id) && eq_option c claim
        then some (record { outcome = outcome; next_id = next_id })
        else s.fin t j c;
  }

  -- The claim's answer is the id and the hash as it stands then.
  unfoldable pub lock_and_load : Store R → ℕ → ℕ → ℕ → Store R
  unfolding run_stamp
  lock_and_load s id token now =
      let s1 = record s {
        lock = update s.lock id (some token);
        stalled = remove_all id s.stalled;
      } in
      let stamp = run_stamp (hget s1 id (λ j. j.processed_on)) now in
      hset s1 id (λ j. record j { processed_on = some stamp; state = some JobState.active })
