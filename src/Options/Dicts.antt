-- ===== src/Options/Dicts.antt =====
-- Dicts of options, toro/job.py: a key that was set is read back, and one that already has the value
-- stays where it is.
use text.Mathlib.Text.{◌==◌}
use text.Mathlib.TextEquality.{eq_iff}
use text.Mathlib.TextPositions.{eq_refl}
use toro.Prelude.{◌≡◌, refl, ap, String, false, inl, inr, some, arith, if◌then◌else◌, Bool-cases}
use toro.Options.Values.{Value, null, Dict, empty, entry, find, get, put}

pub find-put :
    (j k : String) (v : Value) (d : Dict)
    → find k (put j v d) ≡ (if j == k then some v else find k d)
unfolding find put
find-put j k v empty = refl
find-put j k v (entry i w d) = ground (arith, eq_iff j k, eq_iff i j, eq_iff i k, find-put j k v d)

pub put-find : (k : String) (v : Value) (d : Dict) → find k d ≡ some v → put k v d ≡ d
unfolding find put
put-find k v empty h = cc
put-find k v (entry i w d) h = elim (Bool-cases (i == k)) [
  | inl e ↦ rw e (ground (arith, eq_iff i k))
  | inr e ↦ rw e (ap (entry i w) (put-find k v d (ground arith)))
]

pub find-put_self : (k : String) (v : Value) (d : Dict) → find k (put k v d) ≡ some v
find-put_self k v d = simp (find-put, eq_refl)

pub get-find : (k : String) (v : Value) (d : Dict) → find k d ≡ some v → get k null d ≡ v
unfolding get
get-find k v d h = rw h refl

pub find-put_other :
    (j k : String) (v : Value) (d : Dict) → (j == k) ≡ false → find k (put j v d) ≡ find k d
find-put_other j k v d other = rw (find-put j k v d, other) refl

pub get-keep : (k : String) (d e : Dict) → find k e ≡ find k d → get k null e ≡ get k null d
unfolding get
get-keep k d e same = rw same refl
