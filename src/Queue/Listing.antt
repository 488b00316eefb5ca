-- ===== src/Queue/Listing.antt =====
-- toro/queue.py: the ids of a state, page by page (`get_jobs`, `_newest_finished`) and for a batch
-- (`_ids`). A negative index is an index from the end.
pub mod Page
use mathlib.Core.List.{reverse}
use toro.Prelude.{
  ℕ, zero, suc, ◌+◌, ◌-◌, List, [], ◌∷◌, ◌++◌, Bool, true, false, not, Option, none, some, ltb, leb,
  ◌==◌, if◌then◌else◌, get_or_else, length, take, drop,
}
use toro.Redis.{Redis}
use toro.Job.{JobState, is_finished}
use toro.Store.{Store}
use toro.Scripts.Retention.{live_score}
use toro.Scripts.Roots.{members, from_end, range}
use toro.Options.Values.{ℤ, pos, negsuc}

-- The entries of a listing that have settled, and those of a running flow.
unfoldable pub settled : List (ℕ × ℕ) → List ℕ
settled [] = []
settled ((m, s) ∷ rest) = let r = settled rest in if ltb s live_score then m ∷ r else r

unfoldable pub living : List (ℕ × ℕ) → List ℕ
living [] = []
living ((m, s) ∷ rest) = let r = living rest in if ltb s live_score then r else m ∷ r

-- LIMIT start count; a negative count means to the end.
unfoldable pub window : ℕ → ℤ → List ℕ → List ℕ
window start (pos count) xs = take count (drop start xs)
window start (negsuc _) xs = drop start xs

-- `-1 if count < 0 else count - len(settled)`
abbrev pub what_is_left : ℤ → ℕ → ℤ
what_is_left (pos count) got = pos (count - got)
what_is_left (negsuc n) got = negsuc 0

-- `0 <= count == len(settled)`
abbrev pub is_full : ℤ → ℕ → Bool
is_full (pos count) got = count == got
is_full (negsuc n) got = false

-- `_newest_finished`, of a finished set's entries from the newest on.
unfoldable pub newest_finished : List (ℕ × ℕ) → ℕ → ℤ → List ℕ
unfolding settled living window
newest_finished xs start count =
    let page = window start count (settled xs) in
    if is_full count (length page)
    then page
    else page ++ window (start - length (settled xs)) (what_is_left count (length page)) (living xs)

-- `end - start + 1`, where `end` is not below `start`.
unfoldable pub finished_page : List (ℕ × ℕ) → ℕ → Option ℕ → List ℕ
unfolding newest_finished
finished_page xs start none = []
finished_page xs start (some stop) =
    if ltb stop start then [] else newest_finished xs start (pos ((stop - start) + 1))

-- A finished set's page, newest first, of its entries in the order of their scores.
unfoldable pub get_finished : List (ℕ × ℕ) → ℤ → ℤ → List ℕ
unfolding finished_page from_end
get_finished xs start stop =
    finished_page (reverse xs) (get_or_else (from_end (length xs) start) 0)
      (from_end (length xs) stop)

-- `limit - 1`
abbrev pub last_of : ℕ → ℤ
last_of zero = negsuc 0
last_of (suc n) = pos n

unfoldable pub finished_ids : List (ℕ × ℕ) → ℕ → Bool → List ℕ
unfolding newest_finished window settled
finished_ids xs limit true = newest_finished (reverse xs) 0 (pos limit)
finished_ids xs limit false = window 0 (pos limit) (settled xs)

-- `_state_zset` and `_finished_zset`: the sorted set that a state lists from.
unfoldable pub state_zset : {R : Redis} → Store R → JobState → R.ZSet
state_zset s JobState.wait = s.prioritized
state_zset s JobState.delayed = s.delayed
state_zset s JobState.held = s.held
state_zset s JobState.waiting_children = s.waiting_children
state_zset s JobState.completed = s.completed
state_zset s JobState.failed = s.failed
state_zset s JobState.cancelled = s.cancelled
state_zset {R} s JobState.active = R.empty

-- The ids of `Queue.get_jobs`.
unfoldable pub get_jobs : {R : Redis} → Store R → JobState → ℤ → ℤ → List ℕ
unfolding get_finished range members state_zset
get_jobs {R} s JobState.active start stop = range s.active start stop
get_jobs {R} s state start stop =
    if is_finished (some state)
    then get_finished (R.zrange (state_zset s state)) start stop
    else range (members (R.zrange (state_zset s state))) start stop

-- `Queue._ids`; `newest_first` as the dashboard lists them.
unfoldable pub ids_of : {R : Redis} → Store R → JobState → ℕ → Bool → List ℕ
unfolding finished_ids range members state_zset
ids_of {R} s JobState.active limit newest_first = range s.active (pos 0) (last_of limit)
ids_of {R} s state limit newest_first =
    if is_finished (some state)
    then finished_ids (R.zrange (state_zset s state)) limit newest_first
    else range (members (R.zrange (state_zset s state))) (pos 0) (last_of limit)
