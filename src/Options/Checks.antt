-- ===== src/Options/Checks.antt =====
-- The checks of single options: `key_segment`, `_whole`, `_job_name`, `_share`, `_backoff` and
-- `_retention` of toro/job.py.
use text.Mathlib.Text.{◌==◌}
use toro.Prelude.{
  ℕ, zero, suc, ◌^◌, List, [], ◌∷◌, String, Bool, true, false, not, ◌&&◌, ◌||◌, Option, none, some,
  leb, ltb, if◌then◌else◌, guard, ◌>>=◌, ◌>>◌, length,
}
use toro.Prelude as P
use toro.Options.Values.{
  codes, pos, Float, finite, infinity, nan, Value, null, truth, int, float, str, dict, Dict, empty,
  entry, is_integer, truncate, get, put, all_keys,
}

-- `any(ord(c) < 0x20 for c in value)`
unfoldable pub has_control : List ℕ → Bool
has_control [] = false
has_control (c ∷ cs) = ltb c 32 || has_control cs

-- `":" in value`, for a character's code.
unfoldable pub has_code : ℕ → List ℕ → Bool
has_code x [] = false
has_code x (c ∷ cs) = P.◌==◌ c x || has_code x cs

-- Not empty, with no `:` and no control character.
unfoldable pub is_segment : List ℕ → Bool
unfolding has_control has_code
is_segment [] = false
is_segment (c ∷ cs) = not (has_code b':' (c ∷ cs)) && not (has_control (c ∷ cs))

-- `some none` where the value is unset.
unfoldable pub key_segment : Value → Option (Option String)
unfolding is_segment
key_segment null = some none
key_segment (str s) = if is_segment (codes s) then some (some s) else none
key_segment _ = none

-- A whole float means the int.
unfoldable pub as_int : Value → Value
unfolding is_integer truncate
as_int (float f) = if is_integer f then int (truncate f) else float f
as_int v = v

-- `isinstance(value, int)` and `value >= minimum`.
unfoldable pub at_least : ℕ → Value → Option ℕ
at_least minimum (int (pos n)) = if leb minimum n then some n else none
at_least minimum _ = none

-- `_whole`. A bool is an int in Python, and refused by name.
unfoldable pub whole : Value → ℕ → Option ℕ
unfolding as_int at_least
whole (truth b) minimum = none
whole v minimum = at_least minimum (as_int v)

abbrev pub max_job_name_chars : ℕ
max_job_name_chars = 128

unfoldable pub job_name : Value → Option String
unfolding has_control
job_name (str s) =
    if (not (P.◌==◌ (length (codes s)) 0) && leb (length (codes s)) max_job_name_chars)
      && not (has_control (codes s))
    then some s
    else none
job_name _ = none

-- `0 <= value <= 1`, of a float.
unfoldable pub in_unit : Float → Bool
in_unit (finite false m e) = leb m (2 ^ e)
in_unit (finite true m e) = P.◌==◌ m 0
in_unit (infinity neg) = false
in_unit nan = false

unfoldable pub share : Value → Option Float
unfolding in_unit
share (int (pos n)) = if leb n 1 then some (finite false n 0) else none
share (float f) = if in_unit f then some f else none
share _ = none

-- `kind in ("fixed", "exponential")`
unfoldable pub is_kind : Value → Bool
is_kind (str k) = k == "fixed" || k == "exponential"
is_kind _ = false

-- `if value.get("max") is not None: out["max"] = ...`
unfoldable pub put_max : Value → Dict → Option Dict
unfolding whole put
put_max null out = some out
put_max v out = do n ← whole v 1; some (put "max" (int (pos n)) out)

unfoldable pub put_jitter : Value → Dict → Option Dict
unfolding share put
put_jitter null out = some out
put_jitter v out = do f ← share v; some (put "jitter" (float f) out)

-- A `backoff` that is a dict.
unfoldable pub backoff_dict : Dict → Option Dict
unfolding is_kind whole put put_max put_jitter get
backoff_dict d = do
  guard (is_kind (get "type" null d))
  delay ← whole (get "delay" null d) 0
  out ← put_max (get "max" null d) (put "delay" (int (pos delay)) d)
  put_jitter (get "jitter" null d) out

unfoldable pub backoff : Value → Option Value
unfolding backoff_dict whole
backoff null = some null
backoff (dict d) = do out ← backoff_dict d; some (dict out)
backoff v = do n ← whole v 0; some (int (pos n))

-- `{field: _whole(number) for field, number in value.items()}`
unfoldable pub whole_fields : Dict → Option Dict
unfolding whole
whole_fields empty = some empty
whole_fields (entry k v d) = do
  n ← whole v 0
  rest ← whole_fields d
  some (entry k (int (pos n)) rest)

abbrev pub is_bound : String → Bool
is_bound k = k == "count" || k == "age"

abbrev pub is_empty : Dict → Bool
is_empty empty = true
is_empty (entry k v d) = false

unfoldable pub retention : Value → Option Value
unfolding whole_fields whole all_keys
retention null = some null
retention (truth b) = some (truth b)
retention (dict d) = do
  guard (not (is_empty d) && all_keys is_bound d)
  out ← whole_fields d
  some (dict out)
retention v = do n ← whole v 0; some (int (pos n))
