-- ===== src/Options/Values.antt =====
-- The Python values that a caller may pass as an option to toro/job.py: dynamically typed, with the
-- dict of an option and of `JobOptions.to_dict`.
use Prim.Native.Char.{code}
use text.Mathlib.Text.{◌==◌}
use toro.Prelude.{
  ℕ, zero, suc, ◌/◌, ◌%◌, ◌^◌, List, [], ◌∷◌, String, Bool, true, false, ◌&&◌, Option, none, some,
  if◌then◌else◌,
}
use toro.Prelude as P

-- The code points of a text.
abbrev pub codes : String → List ℕ
codes String.[] = []
codes (String.◌∷◌ c s) = code c ∷ codes s

pub data ℤ : Type 0 where
  pos : ℕ → ℤ
  negsuc : ℕ → ℤ  -- -(n + 1)

-- A double. One that is finite is a whole number over a power of two: `finite true 3 1` is -1.5.
pub data Float : Type 0 where
  finite : Bool → ℕ → ℕ → Float
  infinity : Bool → Float
  nan : Float

mutual
  pub data Value : Type 0 where
    null : Value
    truth : Bool → Value
    int : ℤ → Value
    float : Float → Value
    str : String → Value
    dict : Dict → Value
    other : ℕ → Value  -- an object of any other type

  pub data Dict : Type 0 where
    empty : Dict
    entry : String → Value → Dict → Dict

-- `float.is_integer`
unfoldable pub is_integer : Float → Bool
is_integer (finite neg m e) = P.◌==◌ (m % 2 ^ e) 0
is_integer (infinity neg) = false
is_integer nan = false

-- `int(value)` of a whole float.
unfoldable pub negate : Bool → ℕ → ℤ
negate true (suc n) = negsuc n
negate _ n = pos n

unfoldable pub truncate : Float → ℤ
unfolding negate
truncate (finite neg m e) = negate neg (m / 2 ^ e)
truncate (infinity neg) = pos 0
truncate nan = pos 0

-- `d[key]`, where there is one.
unfoldable pub find : String → Dict → Option Value
find key empty = none
find key (entry k v d) = if k == key then some v else find key d

-- `d.get(key, default)`
unfoldable pub get : String → Value → Dict → Value
unfolding find
get key default d = P.get_or_else (find key d) default

-- `d[key] = value`: in its place, or at the end.
unfoldable pub put : String → Value → Dict → Dict
put key v empty = entry key v empty
put key v (entry k w d) = let rest = put key v d in if k == key then entry k v d else entry k w rest

-- `{**d, **e}`
unfoldable pub merge : Dict → Dict → Dict
unfolding put
merge d empty = d
merge d (entry k v e) = merge (put k v d) e

-- `not (set(d) - {...})`, with the members of the set as a test.
unfoldable pub all_keys : (String → Bool) → Dict → Bool
all_keys known empty = true
all_keys known (entry k v d) = known k && all_keys known d
