-- ===== src/Worker/Commit.antt =====
-- toro/worker.py, `Worker._committed`: a finish script that is re-sent through failures of the
-- connection. Clocks and pauses are milliseconds. One attempt is what the connection did with it.
pub mod Once
use toro.Prelude.{
  ℕ, ◌+◌, ◌-◌, ◌*◌, min, Bool, true, false, Option, none, some, List, [], ◌∷◌, ltb, if◌then◌else◌,
}
use toro.Redis.{Redis}
use toro.Store.{Store}
use toro.Scripts.Run.{Reply}

-- `ran`: the script was run; `heard`: its reply arrived, where not a connection error was raised;
-- `now` is the time among its arguments, `clock` the monotonic one at the error.
pub record Attempt : Type 0 where
  pub ran : Bool
  pub heard : Bool
  pub now : ℕ
  pub clock : ℕ

-- What the caller has: the reply, the connection's error or the script's, or nothing yet.
pub data Result : Type 0 where
  answered : Reply → Result
  raised : Result
  refused : Result
  waiting : Result

-- A finish script with its arguments, but for the fetch flag and the time.
abbrev pub Script : Redis → Type 0
Script R = Bool → ℕ → Store R → Option (Store R × Reply)

-- `deadline = time.monotonic() + max(0.0, lock_duration - lock_renew_time)`
unfoldable pub deadline : ℕ → ℕ → ℕ → ℕ
deadline start lock_duration lock_renew_time = start + (lock_duration - lock_renew_time)

-- `pause = min(pause * 2, 2.0)`
unfoldable pub longer : ℕ → ℕ
longer pause = min (pause * 2) 2000

-- The loop, over the attempts that the connection allows.
unfoldable pub attempts :
    {R : Redis} → Script R → ℕ → ℕ → Bool → List Attempt → Store R → Store R × Result
unfolding longer
attempts script until pause fetch [] s = (s, waiting)
attempts script until pause fetch (x ∷ xs) s =
    if x.ran
    then elim (script fetch x.now s) [
      | none ↦
          let rest = attempts script until (longer pause) false xs s in
          if x.heard
          then (s, refused)
          else (if ltb until (x.clock + pause) then (s, raised) else rest)
      | some (t, r) ↦
          let rest = attempts script until (longer pause) false xs t in
          if x.heard
          then (t, answered r)
          else (if ltb until (x.clock + pause) then (t, raised) else rest)
    ]
    else let rest = attempts script until (longer pause) false xs s in
      if ltb until (x.clock + pause) then (s, raised) else rest

unfoldable pub committed :
    {R : Redis} → Script R → ℕ → Bool → List Attempt → Store R → Store R × Result
unfolding attempts
committed script until fetch xs s = attempts script until 200 fetch xs s
