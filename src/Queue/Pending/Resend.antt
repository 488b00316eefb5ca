-- ===== src/Queue/Pending/Resend.antt =====
-- toro/queue.py, `PendingJobs.flush`: a batch that is flushed again.
use toro.Prelude.{
  ℕ, suc, ◌≡◌, ◌≢◌, refl, sym, subst, ◌∙◌, ap, true, inl, inr, ◌⊎◌, Option, none, some, List, [],
  ◌∷◌, ◌==◌, Bool-cases, Option-cases, arith, is_some,
}
use toro.Redis.{Redis}
use toro.Job.{Job}
use toro.Store.{Store, hset}
use toro.Scripts.Metrics.{record_metrics}
use toro.Scripts.Enqueue.{
  AddArgs, new_fields, set_deid, set_delay, find, put, already_there, create_job, add_with_id,
  add_job,
}
use toro.Adding.{taken_and_parked, known, in_window, past_windows, taken, created}
use toro.Queue.Pending.{deliver}

put-other : (o : Option ℕ) (f : ℕ → Option ℕ) (id n : ℕ) → o ≢ some n → put o f id n ≡ f n
put-other none f id n other = refl
put-other (some k) f id n other = elim (Bool-cases (k == n)) [
  | inl e ↦ let same : k ≡ n = ground arith in absurd (other (ap some same))
  | inr e ↦ rw e refl
]

put-some :
    (o : Option ℕ) (f : ℕ → Option ℕ) (id d old : ℕ)
    → f d ≡ some old
    → (i : ℕ) × (put o f id d ≡ some i)
put-some none f id d old e = (old, e)
put-some (some k) f id d old e = elim (Bool-cases (k == d)) [
  | inl same ↦ (id, rw same refl)
  | inr other ↦ (old, rw other e)
]

find-some :
    (o : Option ℕ) (f g : ℕ → Option ℕ) (id : ℕ)
    → ((d old : ℕ) → f d ≡ some old → (i : ℕ) × (g d ≡ some i))
    → find o f ≡ some id
    → (i : ℕ) × (find o g ≡ some i)
find-some none f g id later e = cc e
find-some (some d) f g id later e = later d id e

-- No call of the batch has the token.
abbrev pub NoneHas : ℕ → List AddArgs → Type 0
NoneHas token [] = Unit {0}
NoneHas token (b ∷ rest) = (b.token ≢ some token) × NoneHas token rest

-- Each call of the batch has a token of its own.
abbrev pub HasTokens : List AddArgs → Type 0
HasTokens [] = Unit {0}
HasTokens (a ∷ rest) = ((token : ℕ) × (a.token ≡ some token) × NoneHas token rest) × HasTokens rest

module _ {R : Redis} where
  -- Whatever other call is run between, a call that was answered is answered: by its token, by its
  -- window, or by the id that it asks for.
  Answered : AddArgs → Store R → Type 0
  Answered a t =
      ((id : ℕ) × (find a.token t.add_token ≡ some id))
      ⊎ ((find a.token t.add_token ≡ none)
          × (((id : ℕ) × (find a.dedup_id t.dedup ≡ some id))
              ⊎ ((id : ℕ) × (a.job_id ≡ some id) × (is_some (t.jobs id) ≡ true))))

  answered :
      (a : AddArgs) (t : Store R) → Answered a t → (id : ℕ) × (add_job t a ≡ already_there t id)
  unfolding Answered
  answered a t (inl (id, k)) = (id, known t a id k)
  answered a t (inr (n, inl (id, k))) = (id, in_window t a id n k)
  answered a t (inr (n, inr (id, asked, there))) = elim (Option-cases (find a.dedup_id t.dedup)) [
    | inr (old, k) ↦ (old, in_window t a old n k)
    | inl d ↦ (id, past_windows t a n d ∙ ap (λ o. add_with_id o t a) asked ∙ taken t a id there)
  ]

  -- A step that keeps the calls that were answered, but for one with the same token.
  record Later (b : AddArgs) (s t : Store R) : Type 0 where
    tokens : (k : ℕ) → b.token ≢ some k → t.add_token k ≡ s.add_token k
    windows : (d id : ℕ) → s.dedup d ≡ some id → (i : ℕ) × (t.dedup d ≡ some i)
    there : (i : ℕ) → is_some (s.jobs i) ≡ true → is_some (t.jobs i) ≡ true

  create_job-Later : (s : Store R) (id : ℕ) (b : AddArgs) → Later b s (create_job s id b).0
  unfolding create_job record_metrics
  create_job-Later s id b =
      let f : Job → Job = λ j. set_delay b.delay (set_deid b.dedup_id (new_fields b j)) in
      let s2 : Store R = record (hset s id f) {
        add_token = put b.token s.add_token id;
        dedup = put b.dedup_id s.dedup id;
      } in
      let k = taken_and_parked s2 id b.concurrency_key b.priority b.delay b.now in
      record {
        tokens = λ n other. ap (λ g. g n) k.tokens ∙ put-other b.token s.add_token id n other;
        windows = λ d old e.
            (let (i, at) = put-some b.dedup_id s.dedup id d old e in
              (i, ap (λ g. g d) k.windows ∙ at));
        there = λ i h. k.there i (ground (arith, h));
      }

  same-Later : (b : AddArgs) (s : Store R) (id : ℕ) → Later b s (already_there s id).0
  unfolding already_there
  same-Later b s id = record {
    tokens = λ k other. refl;
    windows = λ d old e. (old, e);
    there = λ i h. h;
  }

  add_with_id-Later : (o : Option ℕ) (s : Store R) (b : AddArgs) → Later b s (add_with_id o s b).0
  unfolding add_with_id
  add_with_id-Later none s b =
      let l = create_job-Later (record s { next_id = suc s.next_id }) (suc s.next_id) b in
      record { tokens = l.tokens; windows = l.windows; there = l.there }
  add_with_id-Later (some id) s b = elim (Bool-cases (is_some (s.jobs id))) [
    | inl old ↦ rw (old, add_with_id) (same-Later b s id)
    | inr free ↦ rw (free, add_with_id) (create_job-Later s id b)
  ]

  add_job-Later : (s : Store R) (b : AddArgs) → Later b s (add_job s b).0
  add_job-Later s b = elim (Option-cases (find b.token s.add_token)) [
    | inr (id, k) ↦ rw (known s b id k) (same-Later b s id)
    | inl n ↦ elim (Option-cases (find b.dedup_id s.dedup)) [
      | inr (id, k) ↦ rw (in_window s b id n k) (same-Later b s id)
      | inl d ↦ rw (past_windows s b n d) (add_with_id-Later b.job_id s b)
    ]
  ]

  Later-Answered :
      (a b : AddArgs) (token : ℕ) (s t : Store R)
      → a.token ≡ some token
      → b.token ≢ some token
      → Later b s t
      → Answered a s
      → Answered a t
  unfolding Answered
  Later-Answered a b token s t own other l h =
      let same : find a.token t.add_token ≡ find a.token s.add_token =
        ap (λ o. find o t.add_token) own
        ∙ l.tokens token other
        ∙ sym (ap (λ o. find o s.add_token) own) in
      elim h [
        | inl (id, k) ↦ inl (id, same ∙ k)
        | inr (n, inl (id, k)) ↦
            inr (same ∙ n, inl (find-some a.dedup_id s.dedup t.dedup id l.windows k))
        | inr (n, inr (id, asked, there)) ↦ inr (same ∙ n, inr (id, asked, l.there id there))
      ]

  by_token :
      (a : AddArgs) (token id : ℕ) (s : Store R)
      → a.token ≡ some token
      → Answered a (create_job s id a).0
  unfolding Answered
  by_token a token id s own =
      let t = (create_job s id a).0 in
      inl (id, ap (λ o. find o t.add_token) own ∙ (created s id token a own).0)

  minted :
      (a : AddArgs) (token : ℕ) (s : Store R) (asked : Option ℕ)
      → a.job_id ≡ asked
      → a.token ≡ some token
      → find a.token s.add_token ≡ none
      → Answered a (add_with_id asked s a).0
  unfolding add_with_id
  minted a token s none is own n =
      by_token a token (suc s.next_id) (record s { next_id = suc s.next_id }) own
  minted a token s (some id) is own n = elim (Bool-cases (is_some (s.jobs id))) [
    | inl old ↦ rw (old, add_with_id) (unfold Answered already_there in inr (n, inr (id, is, old)))
    | inr free ↦ rw (free, add_with_id) (by_token a token id s own)
  ]

  -- An add is answered from then on.
  add_job-Answered :
      (a : AddArgs) (token : ℕ) (s : Store R) → a.token ≡ some token → Answered a (add_job s a).0
  unfolding Answered
  add_job-Answered a token s own = elim (Option-cases (find a.token s.add_token)) [
    | inr (id, k) ↦ rw (known s a id k) (unfold already_there in inl (id, k))
    | inl n ↦ elim (Option-cases (find a.dedup_id s.dedup)) [
      | inr (id, k) ↦ rw (in_window s a id n k) (unfold already_there in inr (n, inl (id, k)))
      | inl d ↦ rw (past_windows s a n d) (minted a token s a.job_id refl own n)
    ]
  ]

  AllAnswered : List AddArgs → Store R → Type 0
  AllAnswered [] t = Unit {0}
  AllAnswered (a ∷ rest) t = Answered a t × AllAnswered rest t

  -- Two stores differ at most in what was published.
  abbrev pub IsQuiet : Store R → Store R → Type 0
  IsQuiet s t = t ≡ record s { events = t.events }

  deliver-keeps :
      (a : AddArgs) (token : ℕ) (rest : List AddArgs) (s : Store R)
      → a.token ≡ some token
      → NoneHas token rest
      → Answered a s
      → Answered a (deliver s rest).0
  unfolding deliver
  deliver-keeps a token [] s own others h = h
  deliver-keeps a token (b ∷ rest) s own others h =
      deliver-keeps a token rest (add_job s b).0 own others.1
        (Later-Answered a b token s (add_job s b).0 own others.0 (add_job-Later s b) h)

  deliver-AllAnswered :
      (calls : List AddArgs) (s : Store R) → HasTokens calls → AllAnswered calls (deliver s calls).0
  unfolding deliver AllAnswered
  deliver-AllAnswered [] s h = tt
  deliver-AllAnswered (a ∷ rest) s ((token, own, others), h) = (
    deliver-keeps a token rest (add_job s a).0 own others (add_job-Answered a token s own),
    deliver-AllAnswered rest (add_job s a).0 h,
  )

  AllAnswered-quiet :
      (calls : List AddArgs) (s t : Store R)
      → IsQuiet s t
      → AllAnswered calls s
      → AllAnswered calls t
  unfolding AllAnswered Answered
  AllAnswered-quiet [] s t q h = tt
  AllAnswered-quiet (a ∷ rest) s t q (h, hs) =
      (subst (λ x. Answered a x) (sym q) h, AllAnswered-quiet rest s t q hs)

  deliver-IsQuiet :
      (calls : List AddArgs) (s : Store R) → AllAnswered calls s → IsQuiet s (deliver s calls).0
  unfolding deliver AllAnswered already_there
  deliver-IsQuiet [] s h = refl
  deliver-IsQuiet (a ∷ rest) s (h, hs) =
      let (id, same) = answered a s h in
      let once : IsQuiet s (add_job s a).0 = subst (λ r. IsQuiet s r.0) (sym same) refl in
      let announced : Store R → Store R =
        λ x. record x { events = (deliver (add_job s a).0 rest).0.events } in
      deliver-IsQuiet rest (add_job s a).0 (AllAnswered-quiet rest s (add_job s a).0 once hs)
      ∙ ap announced once

  -- A batch of adds that is sent twice, as after a flush that never heard back, makes each of its
  -- jobs once: the second time changes nothing but what is announced, where each call was given a
  -- token of its own, whatever ids, windows and keys the calls ask for.
  pub deliver-again :
      (s : Store R) (calls : List AddArgs)
      → HasTokens calls
      → IsQuiet (deliver s calls).0 (deliver (deliver s calls).0 calls).0
  deliver-again s calls h =
      deliver-IsQuiet calls (deliver s calls).0 (deliver-AllAnswered calls s h)
