-- ===== src/Queue/Names.antt =====
-- The names that become Redis keys: `Keys._check`, `Keys.base` and `Keys.job_id_conflict` of
-- toro/keys.py, `Queue._custom_job_id` of toro/queue.py. A text is the list of its code points.
mod Texts
pub mod Keys
pub mod Clear
pub mod Free
pub mod Bases
use Prim.Native.Char.{code}
use toro.Prelude.{
  ℕ, zero, suc, ◌+◌, List, [], ◌∷◌, ◌++◌, map, String, Bool, true, false, not, ◌&&◌, ◌||◌, Option,
  none, some, leb, ltb, ◌==◌, if◌then◌else◌, length, guard, ◌>>=◌, ◌>>◌,
}
use toro.Options.Values.{codes}
use toro.Options.Checks.{has_control, has_code}

unfoldable pub same : List ℕ → List ℕ → Bool
same [] [] = true
same (a ∷ s) (b ∷ t) = (a == b) && same s t
same _ _ = false

-- `text.startswith(prefix)`
unfoldable pub starts_with : List ℕ → List ℕ → Bool
starts_with [] s = true
starts_with (a ∷ p) [] = false
starts_with (a ∷ p) (b ∷ s) = (a == b) && starts_with p s

-- `text.endswith(suffix)`
unfoldable pub ends_with : List ℕ → List ℕ → Bool
unfolding same
ends_with p [] = same p []
ends_with p (b ∷ s) = same p (b ∷ s) || ends_with p s

-- `text in texts`
unfoldable pub among : List ℕ → List (List ℕ) → Bool
unfolding same
among s [] = false
among s (t ∷ ts) = same s t || among s ts

-- The names of the queue's own keys: the properties of `Keys`, less their base.
abbrev pub own_names : List (List ℕ)
own_names = map codes (
    "id" ∷ "prioritized" ∷ "marker" ∷ "pc" ∷ "active" ∷ "delayed" ∷ "completed" ∷ "failed"
    ∷ "waiting-children" ∷ "children" ∷ "roots-scratch" ∷ "meta-paused" ∷ "events" ∷ "limiter"
    ∷ "cancel" ∷ "cancelled" ∷ "held" ∷ "stalled" ∷ "stalled-check" ∷ "repeat" ∷ "workers"
    ∷ "departed" ∷ "meta" ∷ "totals" ∷ [])

abbrev pub namespaces : List (List ℕ)
namespaces =
    map codes ("repeat:" ∷ "worker:" ∷ "metrics:" ∷ "de:" ∷ "ck:" ∷ "held:" ∷ "add:" ∷ "fin:" ∷ [])

abbrev pub job_suffixes : List (List ℕ)
job_suffixes =
    map codes (":lock" ∷ ":logs" ∷ ":deps" ∷ ":results" ∷ ":cfail" ∷ ":ccancel" ∷ ":live" ∷ [])

-- What a custom id would collide with.
pub data Conflict : Type 0 where
  own_key : Conflict
  namespace : List ℕ → Conflict
  another_job : List ℕ → Conflict

unfoldable pub namespace_conflict : List ℕ → List (List ℕ) → Option Conflict
unfolding starts_with
namespace_conflict id [] = none
namespace_conflict id (n ∷ ns) =
    if starts_with n (id ++ (b':' ∷ [])) then some (namespace n) else namespace_conflict id ns

unfoldable pub suffix_conflict : List ℕ → List (List ℕ) → Option Conflict
unfolding ends_with
suffix_conflict id [] = none
suffix_conflict id (x ∷ xs) = if ends_with x id then some (another_job x) else suffix_conflict id xs

-- The first test that finds one.
abbrev pub or_else {ℓ} : {A : Type ℓ} → Option A → Option A → Option A
or_else (some a) o = some a
or_else none o = o

-- `Keys.job_id_conflict`
unfoldable pub job_id_conflict : List ℕ → Option Conflict
job_id_conflict id =
    if among id own_names
    then some own_key
    else or_else (namespace_conflict id namespaces) (suffix_conflict id job_suffixes)

abbrev pub is_none {ℓ} : {A : Type ℓ} → Option A → Bool
is_none none = true
is_none (some a) = false

-- `text.isdigit()`: not empty, and each character a digit, of any script.
unfoldable pub all_digits : (ℕ → Bool) → List ℕ → Bool
all_digits is_digit [] = true
all_digits is_digit (c ∷ cs) = is_digit c && all_digits is_digit cs

abbrev pub max_job_id_chars : ℕ
max_job_id_chars = 256

-- `Queue._custom_job_id`, of `str(job_id)`. `is_digit` is Unicode's.
unfoldable pub custom_job_id : (ℕ → Bool) → List ℕ → Option (List ℕ)
unfolding all_digits has_code has_control job_id_conflict
custom_job_id is_digit id = do
  guard (not ((length id == 0) || all_digits is_digit id))
  guard (not (has_code b'/' id) && not (has_control id) && leb (length id) max_job_id_chars)
  guard (is_none (job_id_conflict id))
  some id

abbrev pub max_segment_chars : ℕ
max_segment_chars = 128

-- `Keys._check`
unfoldable pub check_name : List ℕ → Bool → Option (List ℕ)
unfolding has_control has_code
check_name s colons = do
  guard (not (length s == 0) && leb (length s) max_segment_chars)
  guard (not (has_control s) && (not (has_code b':' s) || colons))
  some s

-- `Keys.__init__`: `f"{prefix}:{queue_name}:"`
unfoldable pub base : List ℕ → List ℕ → Option (List ℕ)
unfolding check_name
base queue_name prefix = do
  n ← check_name queue_name false
  p ← check_name prefix true
  some (p ++ (b':' ∷ (n ++ (b':' ∷ []))))
