-- ===== src/Placement/Reach.antt =====
-- The stores that the scripts of toro/scripts.py lead to from an empty queue, one script at a time
-- as Redis runs them, with what may happen between two of them: a key that has a time to live goes,
-- and a queue is paused, resumed or given limits, or its schedules are written. A step that mints ids asks for them to be free,
-- and one that walks down a flow for its children to have ids above their parents'.
use toro.Prelude.{
  ℕ, suc, ◌≡◌, refl, Bool, true, false, Option, none, some, String, subst, arith, update, inl, inr,
  eq_option, Bool-cases, is_some, [], count,
}
use toro.Redis.{Redis}
use toro.Job.{Reason}
use toro.Store.{Store, OwnLimits, Template, state_of, hget}
use toro.Scripts.Run.{Reply}
use toro.Scripts.Claim.{Claim, move_to_active, extend_lock}
use toro.Scripts.Enqueue.{AddArgs, Node, add_job, add_flow, add_scheduled, remove_scheduler}
use toro.Scripts.Finish.{Finish, move_to_completed, move_to_failed, move_to_cancelled, release_job}
use toro.Scripts.Admin.{promote_job, retry_job, stamp_model, update_progress, append_log}
use toro.Scripts.Remove.{remove_job}
use toro.Scripts.Cancel.{cancel_job}
use toro.Scripts.Stalled.{move_stalled}
use toro.Placement.{IsPlaced, Returned, ckey_of, runs}
use toro.Placement.Claims.{move_to_active-IsPlaced}
use toro.Placement.Finishes.{
  move_to_completed-IsPlaced, move_to_failed-IsPlaced, move_to_cancelled-IsPlaced,
  release_job-IsPlaced,
}
use toro.Placement.Adds.{add_job-IsPlaced, add_scheduled-IsPlaced}
use toro.Placement.Actions.{promote_job-IsPlaced, remove_job-IsPlaced}
use toro.Placement.Trees.{IsFresh, add_flow-IsPlaced}
use toro.Placement.Retries.{IsForest, retry_job-IsPlaced}
use toro.Placement.Stops.{cancel_job-IsPlaced, write-IsPlaced}
use toro.Placement.Recovery.{move_stalled-IsPlaced}

module _ {R : Redis} where
  -- One script, or one thing that happens between two.
  pub data Step (s : Store R) : Store R → Type 0 where
    adds :
        (a : AddArgs) → (a.job_id ≡ none → s.jobs (suc s.next_id) ≡ none) → Step s (add_job s a).0
    schedules :
        (id : ℕ) (t : Template) (now due scheduler : ℕ)
        → Step s (add_scheduled s id t now due scheduler).0
    unschedules : (scheduler : ℕ) → Step s (remove_scheduler s scheduler).0
    claims :
        (token : ℕ) (cap : Option ℕ) (rl_max rl_duration now : ℕ) (r : Store R × Claim)
        → move_to_active s token cap rl_max rl_duration now ≡ some r
        → Step s r.0
    renews : (id token : ℕ) → Step s (extend_lock s id token).0
    completes :
        (a : Finish) (value : String) (inline : Bool) (r : Store R × Reply)
        → move_to_completed s a value inline ≡ some r
        → Step s r.0
    fails :
        (a : Finish) (why : Reason) (trace : Option String) (max_attempts backoff : ℕ)
        (r : Store R × Reply)
        → move_to_failed s a why trace max_attempts backoff ≡ some r
        → Step s r.0
    stops :
        (id token : ℕ) (claim : Option ℕ) (now lock_ms : ℕ)
        → Step s (move_to_cancelled s id token claim now lock_ms).0
    releases :
        (id token : ℕ) (claim : Option ℕ) (now : ℕ) → Step s (release_job s id token claim now).0
    grows :
        (token : Option ℕ) (tree : Node) (now : ℕ)
        → IsFresh s
        → Step s (add_flow s token tree now).0
    retries : (id now : ℕ) → IsForest s.jobs → Step s (retry_job s id now).0
    promotes : (id now : ℕ) → Step s (promote_job s id now).0
    progresses : (id : ℕ) (value : String) → Step s (update_progress s id value).0
    logs : (id : ℕ) (line : String) → Step s (append_log s id line).0
    removes : (id now : ℕ) → Step s (remove_job s id now).0
    cancels : (id : ℕ) (why : Option Reason) (now : ℕ) → Step s (cancel_job s id why now).0
    recovers : (max_stalled now throttle : ℕ) → Step s (move_stalled s max_stalled now throttle).0
    lock_expires : (id : ℕ) → Step s (record s { lock = update s.lock id none })
    window_expires : (id : ℕ) → Step s (record s { dedup = update s.dedup id none })
    token_expires : (token : ℕ) → Step s (record s { add_token = update s.add_token token none })
    memo_expires : (token : ℕ) → Step s (record s { fin = update s.fin token (λ _ _. none) })
    check_expires : Step s (record s { stalled_check = false })
    limiter_expires : Step s (record s { limiter = none })
    stamps : (version : ℕ) → Step s (stamp_model s version).0
    registers :
        (templates : ℕ → Option Template) (slots : R.ZSet)
        → Step s (record s { scheduler = templates; repeat = slots })
    pauses : (paused : Bool) → Step s (record s { paused = paused })
    limits : (l : OwnLimits) → Step s (record s { limits = l })

  -- Nothing was added yet.
  pub record IsEmpty (s : Store R) : Type 0 where
    pub no_job : (id : ℕ) → s.jobs id ≡ none
    pub no_key : (key : ℕ) → s.ck key ≡ none
    pub nobody_behind : (key : ℕ) → s.held_for key ≡ R.empty
    pub none_active : s.active ≡ []
    pub none_waiting : s.prioritized ≡ R.empty
    pub none_delayed : s.delayed ≡ R.empty
    pub none_held : s.held ≡ R.empty
    pub none_completed : s.completed ≡ R.empty
    pub none_failed : s.failed ≡ R.empty
    pub none_cancelled : s.cancelled ≡ R.empty
    pub none_parked : s.waiting_children ≡ R.empty

  pub data Reachable : Store R → Type 0 where
    start : (s : Store R) → IsEmpty s → Reachable s
    step : (s t : Store R) → Reachable s → Step s t → Reachable t

  empty-IsPlaced : (s : Store R) → IsEmpty s → IsPlaced s
  unfolding count
  empty-IsPlaced s h = record {
    placed = λ j. ground (
      arith,
      h.no_job j,
      h.none_active,
      h.none_waiting,
      h.none_delayed,
      h.none_held,
      h.none_completed,
      h.none_failed,
      h.none_cancelled,
      h.none_parked,
      R.zscore-empty j,
    );
    keyed = λ j k. ground (arith, h.no_job j, h.no_key k, h.nobody_behind k, R.zscore-empty j);
  }

  returned :
      {A : Type 0} (o : Option (Store R × A)) (r : Store R × A)
      → o ≡ some r
      → Returned o
      → IsPlaced r.0
  returned o r e h = subst (λ x. Returned x) e h

  extend_lock-IsPlaced :
      (s : Store R) (id token : ℕ) → IsPlaced s → IsPlaced (extend_lock s id token).0
  unfolding extend_lock
  extend_lock-IsPlaced s id token h = elim (Bool-cases (eq_option (s.lock id) (some token))) [
    | inl own ↦ rw (own, extend_lock) (record { placed = h.placed; keyed = h.keyed })
    | inr other ↦ rw (other, extend_lock) h
  ]

  Step-IsPlaced : (s t : Store R) → Step s t → IsPlaced s → IsPlaced t
  unfolding update_progress append_log remove_scheduler stamp_model
  Step-IsPlaced s t (Step.adds a fresh) h = add_job-IsPlaced s a fresh h
  Step-IsPlaced s t (Step.schedules id x now due scheduler) h =
      add_scheduled-IsPlaced s id x now due scheduler h
  Step-IsPlaced s t (Step.unschedules scheduler) h = record { placed = h.placed; keyed = h.keyed }
  Step-IsPlaced s t (Step.claims token cap m d now r e) h =
      returned _ r e (move_to_active-IsPlaced s token cap m d now h)
  Step-IsPlaced s t (Step.renews id token) h = extend_lock-IsPlaced s id token h
  Step-IsPlaced s t (Step.completes a value inline r e) h =
      returned _ r e (move_to_completed-IsPlaced s a value inline h)
  Step-IsPlaced s t (Step.fails a why trace m b r e) h =
      returned _ r e (move_to_failed-IsPlaced s a why trace m b h)
  Step-IsPlaced s t (Step.stops id token claim now ms) h =
      move_to_cancelled-IsPlaced s id token claim now ms h
  Step-IsPlaced s t (Step.releases id token claim now) h =
      release_job-IsPlaced s id token claim now h
  Step-IsPlaced s t (Step.grows token tree now f) h = add_flow-IsPlaced s token tree now f h
  Step-IsPlaced s t (Step.retries id now f) h = retry_job-IsPlaced s id now f h
  Step-IsPlaced s t (Step.promotes id now) h = promote_job-IsPlaced s id now h
  Step-IsPlaced s t (Step.progresses id value) h =
      elim (Bool-cases (is_some (hget s id (λ j. j.timestamp)))) [
        | inr gone ↦ rw (gone, update_progress) h
        | inl there ↦
            rw (there, update_progress)
              (let p =
                  write-IsPlaced s id (λ j. record j { progress = some value }) (λ j. refl)
                    (λ j. refl) h in
                record { placed = p.placed; keyed = p.keyed })
      ]
  Step-IsPlaced s t (Step.logs id line) h =
      elim (Bool-cases (is_some (hget s id (λ j. j.timestamp)))) [
        | inr gone ↦ rw (gone, append_log) h
        | inl there ↦ rw (there, append_log) (record { placed = h.placed; keyed = h.keyed })
      ]
  Step-IsPlaced s t (Step.removes id now) h = remove_job-IsPlaced s id now h
  Step-IsPlaced s t (Step.cancels id why now) h = cancel_job-IsPlaced s id why now h
  Step-IsPlaced s t (Step.recovers m now throttle) h = move_stalled-IsPlaced s m now throttle h
  Step-IsPlaced s t (Step.lock_expires id) h = record { placed = h.placed; keyed = h.keyed }
  Step-IsPlaced s t (Step.window_expires id) h = record { placed = h.placed; keyed = h.keyed }
  Step-IsPlaced s t (Step.token_expires token) h = record { placed = h.placed; keyed = h.keyed }
  Step-IsPlaced s t (Step.memo_expires token) h = record { placed = h.placed; keyed = h.keyed }
  Step-IsPlaced s t Step.check_expires h = record { placed = h.placed; keyed = h.keyed }
  Step-IsPlaced s t Step.limiter_expires h = record { placed = h.placed; keyed = h.keyed }
  Step-IsPlaced s t (Step.stamps version) h = record { placed = h.placed; keyed = h.keyed }
  Step-IsPlaced s t (Step.registers templates slots) h = record {
    placed = h.placed;
    keyed = h.keyed;
  }
  Step-IsPlaced s t (Step.pauses paused) h = record { placed = h.placed; keyed = h.keyed }
  Step-IsPlaced s t (Step.limits l) h = record { placed = h.placed; keyed = h.keyed }

  -- In every store that the steps lead to from an empty queue, each job is in the one collection
  -- that its state names and in no other, once, it waits behind its own key exactly if it is held,
  -- and it is a key's holder exactly if it waits, is delayed or is active, and the key is its own.
  pub Reachable-IsPlaced : (s : Store R) → Reachable s → IsPlaced s
  Reachable-IsPlaced s (Reachable.start _ e) = empty-IsPlaced s e
  Reachable-IsPlaced t (Reachable.step s _ r x) = Step-IsPlaced s t x (Reachable-IsPlaced s r)

  -- In every store that the steps lead to, two jobs with one concurrency key that both wait, are
  -- delayed or are active are the same job: jobs of one key run one at a time.
  pub Reachable-exclusive :
      (s : Store R) (i j key : ℕ)
      → Reachable s
      → ckey_of s i ≡ some key
      → ckey_of s j ≡ some key
      → runs (state_of s i) ≡ true
      → runs (state_of s j) ≡ true
      → i ≡ j
  Reachable-exclusive s i j key r ki kj ri rj =
      let h = Reachable-IsPlaced s r in holder i j (s.ck key) (holds i ki ri) (holds j kj rj)
    where
      holds :
          (n : ℕ)
          → ckey_of s n ≡ some key
          → runs (state_of s n) ≡ true
          → eq_option (s.ck key) (some n) ≡ true
      holds n kn rn = let h = Reachable-IsPlaced s r in ground (arith, h.keyed n key)

      holder :
          (m n : ℕ) (o : Option ℕ)
          → eq_option o (some m) ≡ true
          → eq_option o (some n) ≡ true
          → m ≡ n
      holder m n o em en = ground arith
