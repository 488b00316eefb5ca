-- ===== src/Options/RoundTrip.antt =====
-- toro/job.py: what `JobOptions.to_dict` writes and `from_dict` reads back.
use toro.Prelude.{
  ℕ, ◌≡◌, refl, subst, String, Option, some, if-some, bind-some, guard-some, some-inj,
}
use toro.Options.Values.{
  codes, Value, null, truth, int, float, str, dict, other, Dict, find, get, all_keys, merge,
}
use toro.Options.Checks.{is_segment, key_segment, whole, backoff, retention}
use toro.Options.Record.{
  JobOptions, Given, check_timeout, post_init, to_dict, given_of_dict, from_dict, text_or_null,
  int_or_null, job_options, of_keywords, given_of_keywords, is_option,
}
use toro.Options.Again.{whole-pos, whole_nat, backoff_idem, retention_idem}
use toro.Client.{clamp_priority}

key_segment_idem :
    (v : Value) (k : Option String) → key_segment v ≡ some k → key_segment (text_or_null k) ≡ some k
unfolding key_segment
key_segment_idem null k h = subst (λ x. key_segment (text_or_null x) ≡ some x) (some-inj h) refl
key_segment_idem (str s) k h =
    let (good, is) = if-some (is_segment (codes s)) (some s) k h in
    subst (λ x. key_segment (text_or_null x) ≡ some x) is (rw good refl)
key_segment_idem (truth b) k h = cc
key_segment_idem (int z) k h = cc
key_segment_idem (float f) k h = cc
key_segment_idem (dict d) k h = cc
key_segment_idem (other n) k h = cc

check_timeout_idem :
    (v : Value) (t : Option ℕ) → check_timeout v ≡ some t → check_timeout (int_or_null t) ≡ some t
unfolding check_timeout
check_timeout_idem null t h = subst (λ x. check_timeout (int_or_null x) ≡ some x) (some-inj h) refl
check_timeout_idem v t h =
    let (n, ok, is) = bind-some (whole v 1) (λ n. some (some n)) t h in
    subst (λ x. check_timeout (int_or_null x) ≡ some x) (some-inj is) (rw (whole-pos v 1 n ok) refl)

-- Of any accepted options, with any priority in the place of theirs.
stored :
    (g : Given) (o : JobOptions) (q : ℕ)
    → post_init g ≡ some o
    → from_dict (to_dict (record o { priority = q })) ≡ some (record o { priority = q })
unfolding post_init from_dict given_of_dict to_dict get find
stored g o q h =
    let (key, key_ok, h1) = bind-some (key_segment g.concurrency_key) _ o h in
    let (wait, wait_ok, h2) = bind-some (whole g.delay 0) _ o h1 in
    let (tries, tries_ok, h3) = bind-some (whole g.attempts 1) _ o h2 in
    let (rank, rank_ok, h4) = bind-some (whole g.priority 0) _ o h3 in
    let (again, again_ok, h5) = bind-some (backoff g.backoff) _ o h4 in
    let (completed, completed_ok, h6) = bind-some (retention g.remove_on_complete) _ o h5 in
    let (failed, failed_ok, h7) = bind-some (retention g.remove_on_fail) _ o h6 in
    let (limit, limit_ok, is) = bind-some (check_timeout g.timeout) _ o h7 in
    let P : JobOptions → Type 0 =
      λ x. from_dict (to_dict (record x { priority = q })) ≡ some (record x { priority = q }) in
    subst P (some-inj is) (
      rw
        (
          key_segment_idem g.concurrency_key key key_ok,
          whole-pos g.delay 0 wait wait_ok,
          whole-pos g.attempts 1 tries tries_ok,
          whole_nat q,
          backoff_idem g.backoff again again_ok,
          retention_idem g.remove_on_complete completed completed_ok,
          retention_idem g.remove_on_fail failed failed_ok,
          check_timeout_idem g.timeout limit limit_ok,
        )
        refl)

-- Whatever options a call gives over a queue's defaults, if they are accepted, then what `to_dict`
-- writes into the job's hash is accepted again by `from_dict` and read back as the same options.
pub from_dict-to_dict :
    (defaults opts : Dict) (o : JobOptions)
    → job_options defaults opts ≡ some o
    → from_dict (to_dict o) ≡ some o
unfolding job_options of_keywords
from_dict-to_dict defaults opts o h =
    let (given, ok, is) = bind-some (of_keywords (merge defaults opts)) _ o h in
    let (known, init) = guard-some (all_keys is_option (merge defaults opts)) _ given ok in
    subst (λ x. from_dict (to_dict x) ≡ some x) (some-inj is)
      (stored (given_of_keywords (merge defaults opts)) given (clamp_priority given.priority) init)
