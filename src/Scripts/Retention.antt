-- ===== src/Scripts/Retention.antt =====
-- toro/scripts.py, `_LIB`: finished jobs. What a job's option keeps (`whole`, `keepFor`), removal
-- (`delKeys`, `delJobs`, `removeFinished`), running flows (`runningRoot`, `settleLive`,
-- `reviveSubtree`), the trims and `recordFinished`. `trimBudget` is passed along.
-- The walks take fuel: an auto-generated id is above its parent's, so a walk up from an id has at
-- most that many steps, and one down has at most as many levels as ids were minted.
use toro.Prelude.{
  ℕ, zero, suc, ◌+◌, ◌-◌, ◌*◌, min, List, [], ◌∷◌, Bool, true, false, not, ◌&&◌, ◌||◌, Option, none,
  some, ltb, ◌==◌, if◌then◌else◌, is_some, update, get_or_else, take, length,
}
use toro.Redis.{Redis}
use toro.Job.{Job, JobState, Opts, Number, RemoveOption, is_finished, is_state}
use toro.Store.{Store, hget, hset, state_of}
use toro.Scripts.Keyed.{release_key}

abbrev pub live_score : ℕ
live_score = 4503599627370496

abbrev pub default_keep_completed : ℕ
default_keep_completed = 1000

abbrev pub default_keep_failed : ℕ
default_keep_failed = 5000

abbrev pub trim_budget : ℕ
trim_budget = 1000

-- `none` is Lua's -1, no bound.
unfoldable pub whole : Number → Option ℕ
whole (Number.finite n) = some n
whole _ = none

-- How many jobs the option keeps, and for how many seconds.
unfoldable pub keep_option : RemoveOption → ℕ → Option ℕ × Option ℕ
unfolding whole
keep_option RemoveOption.unset default = (some default, none)
keep_option (RemoveOption.bool false) default = (none, none)
keep_option (RemoveOption.bool true) default = (some 0, none)
keep_option (RemoveOption.number n) default = (whole n, none)
keep_option (RemoveOption.table count age) default = (whole count, whole age)
keep_option RemoveOption.other default = (none, none)

unfoldable pub keep_for : Option Opts → Bool → Option ℕ × Option ℕ
unfolding keep_option
keep_for none true = (some default_keep_completed, none)
keep_for none false = (some default_keep_failed, none)
keep_for (some o) true = keep_option o.remove_on_complete default_keep_completed
keep_for (some o) false = keep_option o.remove_on_fail default_keep_failed

-- `keepCount == 0 and keepAge < 0`
unfoldable pub removes_at_once : Option ℕ × Option ℕ → Bool
removes_at_once (some zero, none) = true
removes_at_once _ = false

-- The ids of a listing with a score below a bound.
unfoldable pub ids_below : ℕ → List (ℕ × ℕ) → List ℕ
ids_below bound [] = []
ids_below bound ((id, s) ∷ l) =
    let rest = ids_below bound l in if ltb s bound then id ∷ rest else rest

unfoldable pub ids_of : List (ℕ × ℕ) → List ℕ
ids_of [] = []
ids_of ((id, s) ∷ l) = id ∷ ids_of l

abbrev pub children_of : Option (List ℕ) → List ℕ
children_of none = []
children_of (some cids) = cids

-- A finished job of a running flow scores above every bound, and an orphan after its root.
unfoldable pub finished_score : Option ℕ → Option ℕ → ℕ → ℕ
finished_score (some root) parent now = live_score + now
finished_score none (some parent) now = now + 1
finished_score none none now = now

module _ {R : Redis} where
  -- ZREM from the set of a finished state.
  unfoldable pub zrem_finished : Store R → Option JobState → ℕ → Store R
  zrem_finished s (some JobState.completed) id = record s { completed = R.zrem s.completed id }
  zrem_finished s (some JobState.failed) id = record s { failed = R.zrem s.failed id }
  zrem_finished s (some JobState.cancelled) id = record s { cancelled = R.zrem s.cancelled id }
  zrem_finished s _ id = s

  -- ZADD to the set of a finished state.
  unfoldable pub zadd_finished : Store R → Option JobState → ℕ → ℕ → Store R
  zadd_finished s (some JobState.completed) score id = record s {
    completed = R.zadd s.completed score id;
  }
  zadd_finished s (some JobState.failed) score id = record s { failed = R.zadd s.failed score id }
  zadd_finished s (some JobState.cancelled) score id = record s {
    cancelled = R.zadd s.cancelled score id;
  }
  zadd_finished s _ score id = s

  unfoldable pub finished_set : Store R → Option JobState → R.ZSet
  finished_set s (some JobState.completed) = s.completed
  finished_set s (some JobState.failed) = s.failed
  finished_set s (some JobState.cancelled) = s.cancelled
  finished_set s _ = R.empty

  unfoldable pub del_keys : Store R → ℕ → Store R
  del_keys s id = record s {
    jobs = update s.jobs id none;
    lock = update s.lock id none;
    logs = update s.logs id [];
    deps = update s.deps id [];
    results = update s.results id (λ _. none);
    cfail = update s.cfail id (λ _. none);
    ccancel = update s.ccancel id (λ _. none);
    live = update s.live id R.empty;
    children = R.zrem s.children id;
  }

  -- A node of the live index goes if it has settled.
  unfoldable pub del_settled : Store R → List ℕ → Store R
  unfolding zrem_finished del_keys
  del_settled s [] = s
  del_settled s (cid ∷ cids) =
      del_settled
        (if is_finished (state_of s cid)
          then del_keys (zrem_finished s (state_of s cid) cid) cid
          else s)
        cids

  -- `delJobs({id}, base)`
  unfoldable pub del_job : Store R → ℕ → Store R
  unfolding del_settled del_keys ids_of
  del_job s id = del_keys (del_settled s (ids_of (R.zrange (s.live id)))) id

  unfoldable pub kept_forever : Store R → ℕ → Option JobState → Bool
  unfolding keep_for
  kept_forever s id state =
      let (count, age) = keep_for (hget s id (λ j. j.opts)) (is_state JobState.completed state) in
      not (is_some count) && not (is_some age)

  -- Over the children of a removed job, with the number of jobs gone so far.
  unfoldable pub remove_each :
      (Store R → Option JobState → ℕ → Store R × ℕ) → Store R → ℕ → List ℕ → Store R × ℕ
  unfolding kept_forever
  remove_each remove s gone [] = (s, gone)
  remove_each remove s gone (cid ∷ cids) =
      let state = state_of s cid in
      let (s1, n) =
        if is_finished state && not (kept_forever s cid state)
        then remove s state cid
        else (s, 0) in
      remove_each remove s1 (gone + n) cids

  unfoldable pub remove_finished : ℕ → Store R → Option JobState → ℕ → Store R × ℕ
  unfolding remove_each zrem_finished del_job
  remove_finished zero s state id = (s, 0)
  remove_finished (suc f) s state id =
      let recur = remove_finished f in
      let own = hget s id (λ j. j.state) in
      let cids = children_of (hget s id (λ j. j.children)) in
      let s1 = zrem_finished s state id in
      if is_some own then remove_each recur (del_job s1 id) 1 cids else (s1, 0)

  -- The walk up to a root, for a flow that carries no `rootId`.
  unfoldable pub walk_up : ℕ → Store R → ℕ → ℕ
  walk_up zero s id = id
  walk_up (suc f) s id = elim (hget s id (λ j. j.parent_id)) [
    | none ↦ id
    | some up ↦ walk_up f s up
  ]

  unfoldable pub running_root : Store R → Option ℕ → Option ℕ → Option ℕ
  unfolding walk_up
  running_root s none root = none
  running_root s (some parent) root =
      let r = get_or_else root (walk_up parent s parent) in
      let state = state_of s r in if not (is_some state) || is_finished state then none else some r

  unfoldable pub settle_each : Store R → ℕ → List ℕ → Store R
  unfolding zadd_finished
  settle_each s now [] = s
  settle_each s now (cid ∷ cids) =
      settle_each (zadd_finished s (state_of s cid) (now + 1) cid) now cids

  unfoldable pub settle_live : Store R → ℕ → ℕ → Store R
  unfolding settle_each ids_of
  settle_live s root now =
      let s1 = settle_each s now (ids_of (R.zrange (s.live root))) in
      record s1 { live = update s1.live root R.empty }

  unfoldable pub revive_one : Store R → ℕ → ℕ → ℕ → Store R
  unfolding zadd_finished
  revive_one s root cid now =
      let state = state_of s cid in
      let s1 = zadd_finished s state (live_score + now) cid in
      if is_finished state
      then record s1 { live = update s1.live root (R.zadd (s1.live root) now cid) }
      else s

  unfoldable pub revive_each : (Store R → ℕ → Store R) → Store R → ℕ → ℕ → List ℕ → Store R
  unfolding revive_one
  revive_each revive s root now [] = s
  revive_each revive s root now (cid ∷ cids) =
      revive_each revive (revive (revive_one s root cid now) cid) root now cids

  unfoldable pub revive_subtree : ℕ → ℕ → ℕ → Store R → ℕ → Store R
  unfolding revive_each
  revive_subtree zero root now s id = s
  revive_subtree (suc f) root now s id =
      revive_each (revive_subtree f root now) s root now (children_of (hget s id (λ j. j.children)))

  -- The loop of both trims: each removal is paid from the budget.
  unfoldable pub trim_each : Store R → Option JobState → ℕ → List ℕ → Store R × ℕ
  unfolding remove_finished
  trim_each s state budget [] = (s, budget)
  trim_each s state budget (id ∷ ids) =
      let (s1, gone) = remove_finished (suc s.next_id) s state id in
      let rest = trim_each s1 state (budget - gone) ids in if budget == 0 then (s, budget) else rest

  unfoldable pub trim_by_age : Store R → Option JobState → ℕ → ℕ → ℕ → Store R × ℕ
  unfolding trim_each finished_set ids_below
  trim_by_age s state budget now keep_age =
      trim_each s state budget
        (take budget (ids_below (now - keep_age * 1000) (R.zrange (finished_set s state))))

  unfoldable pub trim_by_count : Store R → Option JobState → ℕ → ℕ → Store R × ℕ
  unfolding trim_each finished_set ids_below ids_of
  trim_by_count s state budget keep_count =
      let listing = R.zrange (finished_set s state) in
      let excess = length (ids_below live_score listing) - keep_count in
      if excess == 0
      then (s, budget)
      else trim_each s state budget (take (min excess budget) (ids_of listing))

  unfoldable pub age_trim : Store R → Option JobState → ℕ → ℕ → Option ℕ → Store R × ℕ
  unfolding trim_by_age
  age_trim s state budget now none = (s, budget)
  age_trim s state budget now (some age) =
      if ltb 0 budget then trim_by_age s state budget now age else (s, budget)

  unfoldable pub count_trim : Store R → Option JobState → ℕ → Option ℕ → Store R × ℕ
  unfolding trim_by_count
  count_trim s state budget none = (s, budget)
  count_trim s state budget (some n) =
      if ltb 0 n && ltb 0 budget then trim_by_count s state budget n else (s, budget)

  -- Both trims, in their order, as the job's own option asks.
  unfoldable pub trim : Store R → Option JobState → ℕ → ℕ → Option ℕ × Option ℕ → Store R × ℕ
  unfolding age_trim count_trim
  trim s state budget now (keep_count, keep_age) =
      let (s1, b1) = age_trim s state budget now keep_age in count_trim s1 state b1 keep_count

  -- The live index of the running root, or a settling root's flow that becomes history.
  unfoldable pub index_finished : Store R → ℕ → ℕ → Option ℕ → Bool → Store R
  unfolding settle_live
  index_finished s id now (some root) is_parent = record s {
    live = update s.live root (R.zadd (s.live root) now id);
  }
  index_finished s id now none true = settle_live s id now
  index_finished s id now none false = s

  -- The finished job is recorded, or removed at once if its option keeps none.
  unfoldable pub record_finished : Store R → ℕ → ℕ → ℕ → (Job → Job) → JobState → Store R × ℕ
  unfolding running_root settle_live del_job zadd_finished trim keep_for removes_at_once release_key
      finished_score index_finished
  record_finished s budget id now set_field state =
      let s1 = release_key s id now in
      let keep = keep_for (hget s1 id (λ j. j.opts)) (is_state JobState.completed (some state)) in
      let parent = hget s1 id (λ j. j.parent_id) in
      let is_parent = is_some (hget s1 id (λ j. j.children)) in
      let root = running_root s1 parent (hget s1 id (λ j. j.root_id)) in
      if removes_at_once keep
      then (del_job (if is_parent then settle_live s1 id now else s1) id, budget)
      else (let s2 =
            hset (zadd_finished s1 (some state) (finished_score root parent now) id) id
              (λ j. record (set_field j) { finished_on = some now; state = some state }) in
          trim (index_finished s2 id now root is_parent) (some state) budget now keep)
