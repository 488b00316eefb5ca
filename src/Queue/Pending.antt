-- ===== src/Queue/Pending.antt =====
-- toro/queue.py, `PendingJobs`: a batch of calls that is sent once a transaction has committed. A
-- call is staged by `stage`, `none` where an option is refused; `stamped` is whether the check of the
-- data model passed; the replies are `none` where the connection died.
pub mod Resend
pub mod Unsent
use toro.Prelude.{
  ℕ, suc, ◌≡◌, refl, ap, List, [], ◌∷◌, ◌++◌, Bool, true, false, Option, none, some, ◌>>=◌,
  if◌then◌else◌,
}
use toro.Redis.{Redis}
use toro.Store.{Store}
use toro.Scripts.Enqueue.{AddArgs, Added, add_job}

-- A reply of the pipeline, with the job that `build` makes of it, or the script's error.
pub data Answer (J : Type 0) : Type 0 where
  built : J → Answer J
  error : ℕ → Answer J

-- How a flush ends: with its jobs, with a PartialFlushError, or with an exception.
pub data Flushed (J : Type 0) : Type 0 where
  jobs : List J → Flushed J
  partial : List J → List ℕ → Flushed J
  refused : Flushed J
  unheard : Flushed J

-- `[stage() for stage in calls]`
unfoldable pub stage_all : {C S : Type 0} → (C → Option S) → List C → Option (List S)
stage_all stage [] = some []
stage_all stage (c ∷ cs) = do s ← stage c; ss ← stage_all stage cs; some (s ∷ ss)

-- The calls that failed, their errors, and the jobs that were sent.
unfoldable pub sort_replies : {C J : Type 0} → List C → List (Answer J) → List C × List ℕ × List J
sort_replies (c ∷ cs) (built j ∷ rs) =
    let (failed, errors, sent) = sort_replies cs rs in (failed, errors, j ∷ sent)
sort_replies (c ∷ cs) (error e ∷ rs) =
    let (failed, errors, sent) = sort_replies cs rs in (c ∷ failed, e ∷ errors, sent)
sort_replies _ _ = ([], [], [])

abbrev pub ending : {J : Type 0} → List ℕ → List J → Flushed J
ending [] sent = jobs sent
ending (e ∷ es) sent = partial sent (e ∷ es)

-- Past the staging: what came back of the round trip.
unfoldable pub settle :
    {C J : Type 0} → List C → List C → Option (List (Answer J)) → List C × Flushed J
unfolding sort_replies
settle calls later none = (calls ++ later, unheard)
settle calls later (some replies) =
    let (failed, errors, sent) = sort_replies calls replies in (failed ++ later, ending errors sent)

-- `flush`, of the batch `calls`; `later` are the calls that were collected while it ran. What is
-- left in hand, and how it ends.
unfoldable pub flush :
    {C S J : Type 0}
    → (C → Option S)
    → Bool
    → List C
    → List C
    → (List S → Option (List (Answer J)))
    → List C × Flushed J
flush stage stamped [] later send = (later, jobs [])
flush stage stamped (c ∷ cs) later send = elim (stage_all stage (c ∷ cs)) [
  | none ↦ ((c ∷ cs) ++ later, refused)
  | some staged ↦
      if stamped then settle (c ∷ cs) later (send staged) else ((c ∷ cs) ++ later, refused)
]

-- A pipeline of ADD_JOB calls, one after another as Redis runs them.
unfoldable pub deliver : {R : Redis} → Store R → List AddArgs → Store R × List Added
unfolding add_job
deliver s [] = (s, [])
deliver s (a ∷ rest) = let (s1, r) = add_job s a in let (s2, rs) = deliver s1 rest in (s2, r ∷ rs)
