-- ===== src/Options/Again.antt =====
-- toro/job.py: the checks `_whole`, `_share`, `_backoff` and `_retention`, run on what they returned.
use text.Mathlib.Text.{◌==◌}
use toro.Prelude.{
  ℕ, ◌≡◌, refl, ap, subst, ◌∙◌, String, true, false, not, ◌&&◌, ◌⊎◌, inl, inr, some, arith, leb,
  if-some, bind-some, guard-some, some-inj,
}
use toro.Options.Values.{
  pos, negsuc, Float, finite, Value, null, truth, int, float, str, dict, other, Dict, empty, entry,
  find, get, put, all_keys,
}
use toro.Options.Dicts.{put-find, find-put_self, get-find, get-keep, find-put_other}
use toro.Options.Checks.{
  as_int, at_least, whole, in_unit, share, is_kind, put_max, put_jitter, backoff_dict, backoff,
  whole_fields, is_bound, is_empty, retention,
}

at_least-pos : (m n : ℕ) (v : Value) → at_least m v ≡ some n → at_least m (int (pos n)) ≡ some n
unfolding at_least
at_least-pos m n (int (pos k)) h = ground arith
at_least-pos m n (int (negsuc k)) h = cc
at_least-pos m n null h = cc
at_least-pos m n (truth b) h = cc
at_least-pos m n (float f) h = cc
at_least-pos m n (str s) h = cc
at_least-pos m n (dict d) h = cc
at_least-pos m n (other k) h = cc

pub whole-pos : (v : Value) (m n : ℕ) → whole v m ≡ some n → whole (int (pos n)) m ≡ some n
unfolding whole as_int
whole-pos (int z) m n h = at_least-pos m n (int z) h
whole-pos (truth b) m n h = cc
whole-pos null m n h = at_least-pos m n null h
whole-pos (float f) m n h = at_least-pos m n (as_int (float f)) h
whole-pos (str s) m n h = at_least-pos m n (str s) h
whole-pos (dict d) m n h = at_least-pos m n (dict d) h
whole-pos (other k) m n h = at_least-pos m n (other k) h

pub whole_nat : (n : ℕ) → whole (int (pos n)) 0 ≡ some n
unfolding whole as_int at_least
whole_nat n = ground arith

share-unit : (f g : Float) → (in_unit f ≡ true) × (f ≡ g) → share (float g) ≡ some g
unfolding share
share-unit f g h = subst (λ x. share (float x) ≡ some x) h.1 (rw h.0 refl)

share-float : (v : Value) (f : Float) → share v ≡ some f → share (float f) ≡ some f
unfolding share in_unit
share-float (int (pos n)) f h =
    share-unit (finite false n 0) f (if-some (leb n 1) (finite false n 0) f h)
share-float (float g) f h = share-unit g f (if-some (in_unit g) g f h)
share-float (int (negsuc n)) f h = cc
share-float null f h = cc
share-float (truth b) f h = cc
share-float (str s) f h = cc
share-float (dict d) f h = cc
share-float (other k) f h = cc

-- A dict that `_backoff` leaves as it is.
abbrev IsMax : Dict → Type 0
IsMax d =
    (get "max" null d ≡ null)
    ⊎ ((n : ℕ) × (find "max" d ≡ some (int (pos n))) × (whole (int (pos n)) 1 ≡ some n))

abbrev IsJitter : Dict → Type 0
IsJitter d =
    (get "jitter" null d ≡ null)
    ⊎ ((f : Float) × (find "jitter" d ≡ some (float f)) × (share (float f) ≡ some f))

abbrev IsSettled : Dict → Type 0
IsSettled d =
    (is_kind (get "type" null d) ≡ true)
    × ((n : ℕ) × (find "delay" d ≡ some (int (pos n))) × (whole (int (pos n)) 0 ≡ some n))
    × IsMax d
    × IsJitter d

put_max-settled : (d : Dict) → IsMax d → put_max (get "max" null d) d ≡ some d
unfolding put_max
put_max-settled d (inl e) = rw e refl
put_max-settled d (inr (n, at, ok)) =
    rw (get-find "max" (int (pos n)) d at, ok) (ap some (put-find "max" (int (pos n)) d at))

put_jitter-settled : (d : Dict) → IsJitter d → put_jitter (get "jitter" null d) d ≡ some d
unfolding put_jitter
put_jitter-settled d (inl e) = rw e refl
put_jitter-settled d (inr (f, at, ok)) =
    rw (get-find "jitter" (float f) d at, ok) (ap some (put-find "jitter" (float f) d at))

backoff_dict-settled : (d : Dict) → IsSettled d → backoff_dict d ≡ some d
unfolding backoff_dict
backoff_dict-settled d (kind, (n, at, ok), max_ok, jitter_ok) =
    rw
      (
        kind,
        get-find "delay" (int (pos n)) d at,
        ok,
        put-find "delay" (int (pos n)) d at,
        put_max-settled d max_ok,
        put_jitter-settled d jitter_ok,
      )
      refl

-- What `put_max` does: nothing, or it sets a number that was checked.
put_max-sets :
    (v : Value) (d e : Dict)
    → put_max v d ≡ some e
    → ((v ≡ null) × (d ≡ e))
      ⊎ ((n : ℕ) × (put "max" (int (pos n)) d ≡ e) × (whole (int (pos n)) 1 ≡ some n))
unfolding put_max
put_max-sets null d e h = inl (refl, some-inj h)
put_max-sets v d e h =
    let (n, ok, is) = bind-some (whole v 1) (λ n. some (put "max" (int (pos n)) d)) e h in
    inr (n, some-inj is, whole-pos v 1 n ok)

put_jitter-sets :
    (v : Value) (d e : Dict)
    → put_jitter v d ≡ some e
    → ((v ≡ null) × (d ≡ e))
      ⊎ ((f : Float) × (put "jitter" (float f) d ≡ e) × (share (float f) ≡ some f))
unfolding put_jitter
put_jitter-sets null d e h = inl (refl, some-inj h)
put_jitter-sets v d e h =
    let (f, ok, is) = bind-some (share v) (λ f. some (put "jitter" (float f) d)) e h in
    inr (f, some-inj is, share-float v f ok)

-- Each step settles its own key and leaves the others as they were.
Keeps : String → Dict → Dict → Type 0
Keeps j d e = (k : String) → (j == k) ≡ false → find k e ≡ find k d

IsMax-settled :
    (v : Value) (d e : Dict)
    → put_max v d ≡ some e
    → get "max" null d ≡ v
    → IsMax e × Keeps "max" d e
unfolding Keeps
IsMax-settled v d e h is = elim (put_max-sets v d e h) [
  | inl (unset, same) ↦
      subst (λ x. IsMax x × Keeps "max" d x) same (inl (is ∙ unset), λ k other. refl)
  | inr (n, same, ok) ↦
      subst (λ x. IsMax x × Keeps "max" d x) same
        (
          inr (n, find-put_self "max" (int (pos n)) d, ok),
          λ k other. find-put_other "max" k (int (pos n)) d other,
        )
]

IsJitter-settled :
    (v : Value) (d e : Dict)
    → put_jitter v d ≡ some e
    → get "jitter" null d ≡ v
    → IsJitter e × Keeps "jitter" d e
unfolding Keeps
IsJitter-settled v d e h is = elim (put_jitter-sets v d e h) [
  | inl (unset, same) ↦
      subst (λ x. IsJitter x × Keeps "jitter" d x) same (inl (is ∙ unset), λ k other. refl)
  | inr (f, same, ok) ↦
      subst (λ x. IsJitter x × Keeps "jitter" d x) same
        (
          inr (f, find-put_self "jitter" (float f) d, ok),
          λ k other. find-put_other "jitter" k (float f) d other,
        )
]

IsMax-keep : (d e : Dict) → find "max" e ≡ find "max" d → IsMax d → IsMax e
IsMax-keep d e same (inl unset) = inl (get-keep "max" d e same ∙ unset)
IsMax-keep d e same (inr (n, at, ok)) = inr (n, same ∙ at, ok)

backoff_dict-IsSettled : (d e : Dict) → backoff_dict d ≡ some e → IsSettled e
unfolding backoff_dict Keeps
backoff_dict-IsSettled d e h =
    let (kind, h1) = guard-some (is_kind (get "type" null d)) _ e h in
    let (n, delay_ok, h2) = bind-some (whole (get "delay" null d) 0) _ e h1 in
    let d1 = put "delay" (int (pos n)) d in
    let (d2, max_ok, h3) = bind-some (put_max (get "max" null d) d1) _ e h2 in
    let other : (k : String) → ("delay" == k) ≡ false → find k d1 ≡ find k d =
      λ k o. find-put_other "delay" k (int (pos n)) d o in
    let (is_max, keep2) =
      IsMax-settled (get "max" null d) d1 d2 max_ok (get-keep "max" d d1 (other "max" refl)) in
    let (is_jitter, keep3) =
      IsJitter-settled (get "jitter" null d) d2 e h3
        (get-keep "jitter" d d2 (keep2 "jitter" refl ∙ other "jitter" refl)) in
    (
      ap is_kind (get-keep "type" d e (keep3 "type" refl ∙ keep2 "type" refl ∙ other "type" refl))
          ∙ kind,
      (
        n,
        keep3 "delay" refl ∙ keep2 "delay" refl ∙ find-put_self "delay" (int (pos n)) d,
        whole-pos (get "delay" null d) 0 n delay_ok,
      ),
      IsMax-keep d2 e (keep3 "max" refl) is_max,
      is_jitter,
    )

-- An option that `_backoff` accepted, it accepts again and leaves as it is.
pub backoff_idem : (v b : Value) → backoff v ≡ some b → backoff b ≡ some b
unfolding backoff
backoff_idem null b h = subst (λ x. backoff x ≡ some x) (some-inj h) refl
backoff_idem (dict d) b h =
    let (e, ok, is) = bind-some (backoff_dict d) (λ e. some (dict e)) b h in
    subst (λ x. backoff x ≡ some x) (some-inj is)
      (rw (backoff_dict-settled e (backoff_dict-IsSettled d e ok)) refl)
backoff_idem v b h =
    let (n, ok, is) = bind-some (whole v 0) (λ n. some (int (pos n))) b h in
    subst (λ x. backoff x ≡ some x) (some-inj is) (rw (whole-pos v 0 n ok) refl)

whole_fields_idem :
    (d e : Dict)
    → whole_fields d ≡ some e
    → (whole_fields e ≡ some e)
      × (all_keys is_bound e ≡ all_keys is_bound d)
      × (is_empty e ≡ is_empty d)
unfolding whole_fields all_keys
whole_fields_idem empty e h =
    subst (λ x. (whole_fields x ≡ some x) × (all_keys is_bound x ≡ true) × (is_empty x ≡ true))
      (some-inj h) (refl, refl, refl)
whole_fields_idem (entry k v d) e h =
    let (n, ok, h1) = bind-some (whole v 0) _ e h in
    let (rest, more, is) = bind-some (whole_fields d) (λ r. some (entry k (int (pos n)) r)) e h1 in
    let (again, keys, size) = whole_fields_idem d rest more in
    subst
      (λ x.
        (whole_fields x ≡ some x)
        × (all_keys is_bound x ≡ (is_bound k && all_keys is_bound d))
        × (is_empty x ≡ false))
      (some-inj is) (rw (whole-pos v 0 n ok, again) refl, rw keys refl, refl)

pub retention_idem : (v r : Value) → retention v ≡ some r → retention r ≡ some r
unfolding retention
retention_idem null r h = subst (λ x. retention x ≡ some x) (some-inj h) refl
retention_idem (truth b) r h = subst (λ x. retention x ≡ some x) (some-inj h) refl
retention_idem (dict d) r h =
    let (fit, h1) = guard-some (not (is_empty d) && all_keys is_bound d) _ r h in
    let (e, ok, is) = bind-some (whole_fields d) (λ e. some (dict e)) r h1 in
    let (again, keys, size) = whole_fields_idem d e ok in
    subst (λ x. retention x ≡ some x) (some-inj is) (rw (size, keys, fit, again) refl)
retention_idem v r h =
    let (n, ok, is) = bind-some (whole v 0) (λ n. some (int (pos n))) r h in
    subst (λ x. retention x ≡ some x) (some-inj is) (rw (whole-pos v 0 n ok) refl)
