-- ===== src/Scripts/Roots.antt =====
-- toro/scripts.py, `_ROOTS_LIB` (`walk`, `present`, `countRoots`) and the scripts `LIST_ROOTS` and
-- `ROOTS_COUNTS`: the jobs of a state that are no flow's children. They write nothing but the scratch
-- key, which is deleted before they end.
use mathlib.Core.List.{reverse}
use toro.Prelude.{
  ℕ, zero, suc, ◌+◌, ◌-◌, List, [], ◌∷◌, ◌++◌, Bool, true, false, not, ◌&&◌, ◌||◌, Option, none,
  some, ltb, leb, ◌==◌, if◌then◌else◌, is_some, get_or_else, length, take, drop,
}
use toro.Redis.{Redis, missing}
use toro.Store.{Store}
use toro.Options.Values.{ℤ, pos, negsuc}

-- The members of a listing, without their scores.
unfoldable pub members : List (ℕ × ℕ) → List ℕ
members [] = []
members ((m, s) ∷ rest) = m ∷ members rest

-- `total + index` for an index that counts from the end; `none` below 0.
unfoldable pub from_end : ℕ → ℤ → Option ℕ
from_end total (pos k) = some k
from_end total (negsuc k) = if leb (suc k) total then some (total - suc k) else none

-- ZRANGE (or ZREVRANGE) key start stop, of the members in the order asked for.
unfoldable pub between : List ℕ → ℕ → Option ℕ → List ℕ
between xs start none = []
between xs start (some stop) =
    if ltb stop start || leb (length xs) start
    then []
    else take ((stop - start) + 1) (drop start xs)

unfoldable pub range : List ℕ → ℤ → ℤ → List ℕ
unfolding from_end between
range xs start stop =
    between xs (get_or_else (from_end (length xs) start) 0) (from_end (length xs) stop)

-- `present`: how many of the ids have a score.
unfoldable pub present : (ℕ → Option ℕ) → List ℕ → ℕ
present score [] = 0
present score (m ∷ ms) = let rest = present score ms in if is_some (score m) then suc rest else rest

-- `walk`, with `present` in place of `fn`, on fuel.
unfoldable pub walk : ℕ → (ℕ → Option ℕ) → List ℕ → ℕ → ℕ → ℕ → ℕ
unfolding present
walk zero score xs chunk at n = n
walk (suc fuel) score xs chunk at n =
    let rest =
      walk fuel score xs chunk (at + chunk) (n + present score (take chunk (drop at xs))) in
    if ltb at (length xs) then rest else n

-- The members of a chunk that are no children, up to a page: what was seen, and the page.
unfoldable pub gather : (ℕ → Option ℕ) → ℕ → ℕ → List ℕ → ℕ → List ℕ → ℕ × List ℕ
gather score start want [] seen ids = (seen, ids)
gather score start want (m ∷ ms) seen ids =
    if is_some (score m)
    then gather score start want ms seen ids
    else gather score start want ms (suc seen)
        (if leb start seen && ltb (length ids) want then ids ++ (m ∷ []) else ids)

-- The walk to a page, on fuel: `while pos < n and #ids < want`.
unfoldable pub page : ℕ → (ℕ → Option ℕ) → List ℕ → ℕ → ℕ → ℕ → ℕ → ℕ → List ℕ → List ℕ
unfolding gather
page zero score xs chunk start want at seen ids = ids
page (suc fuel) score xs chunk start want at seen ids =
    let ms = take chunk (drop at xs) in
    let (seen1, ids1) = gather score start want ms seen ids in
    let rest = page fuel score xs chunk start want (at + length ms) seen1 ids1 in
    if ltb at (length xs) && ltb (length ids) want then rest else ids

module _ (R : Redis) where
  abbrev pub size : R.ZSet → ℕ
  size z = length (R.zrange z)

  -- `countRoots`
  unfoldable pub count_roots : R.ZSet → R.ZSet → ℕ → ℕ
  unfolding walk members
  count_roots state ch chunk =
      let n = size state in
      if (n == 0) || (size ch == 0)
      then n
      else n
        - (if leb (size ch) n
            then walk (size ch) (R.zscore state) (members (R.zrange ch)) chunk 0 0
            else walk n (R.zscore ch) (members (R.zrange state)) chunk 0 0)

  -- ZRANGE or ZREVRANGE of a whole sorted set.
  abbrev pub in_order : R.ZSet → Bool → List ℕ
  in_order z true = reverse (members (R.zrange z))
  in_order z false = members (R.zrange z)

  -- LIST_ROOTS, past the tests of the page: the diff for a page that starts deep, or the walk.
  unfoldable pub roots_page : R.ZSet → R.ZSet → Bool → ℕ → ℕ → ℕ → ℕ → List ℕ
  unfolding range page
  roots_page state ch rev chunk deep start stop =
      if leb deep start
      then range (in_order (R.zdiff state ch) rev) (pos start) (pos stop)
      else page (size state) (R.zscore ch) (in_order state rev) chunk start ((stop - start) + 1) 0 0
          []

  -- The page from `start` on, of `total` roots, with the early answer for one that is empty.
  unfoldable pub roots_between : R.ZSet → R.ZSet → Bool → ℕ → ℕ → ℕ → ℕ → Option ℕ → List ℕ
  unfolding roots_page
  roots_between state ch rev chunk deep total start none = []
  roots_between state ch rev chunk deep total start (some stop) =
      if (total == 0) || (ltb stop start || leb total start)
      then []
      else roots_page state ch rev chunk deep start stop

  -- LIST_ROOTS: the number of roots and a page of them.
  unfoldable pub list_roots : R.ZSet → R.ZSet → ℤ → ℤ → Bool → ℕ → ℕ → ℕ × List ℕ
  unfolding range from_end
  list_roots state ch start stop rev chunk deep =
      if size ch == 0
      then (size state, range (in_order state rev) start stop)
      else let total = count_roots state ch chunk in
        (
          total,
          roots_between state ch rev chunk deep total (get_or_else (from_end total start) 0)
              (from_end total stop),
        )

  -- `active` is a list: its roots, by membership.
  unfoldable pub active_roots : R.ZSet → List ℕ → ℕ
  active_roots ch [] = 0
  active_roots ch (m ∷ ms) =
      let rest = active_roots ch ms in
      if not (ltb 0 (size ch)) || missing (R.zscore ch m) then suc rest else rest

  -- ROOTS_COUNTS: prioritized, delayed, completed, failed, waiting-children, held, cancelled, active.
  unfoldable pub roots_counts : Store R → ℕ → List ℕ
  roots_counts s chunk =
      let rc : R.ZSet → ℕ = λ z. count_roots z s.children chunk in
      rc s.prioritized
      ∷ rc s.delayed
      ∷ rc s.completed
      ∷ rc s.failed
      ∷ rc s.waiting_children
      ∷ rc s.held
      ∷ rc s.cancelled
      ∷ active_roots s.children s.active
      ∷ []
