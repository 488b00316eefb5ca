-- ===== src/Worker/Signals/Asked.antt =====
-- toro/worker.py: a request and a timeout, each of which asks a run to stop once.
use toro.Prelude.{
  ℕ, suc, ◌≤◌, ◌≡◌, ◌≢◌, refl, sym, ap, ◌∙◌, subst, inl, inr, Bool, true, false, ◌||◌, Option, none,
  some, ◌==◌, if◌then◌else◌, eq_option, eq_option-other, update, get_or_else, arith, Bool-cases,
  Option-cases,
}
use toro.Worker.Signals.{Runs, cancel, is_other, ask, request_cancel, expire}
use toro.Worker.Signals.History.{
  Signal, is_late, is_other-meant, note, hears, IsOnce, IsSingle, IsOnce-same, note-known,
  pair-left,
}

-- A run that was not asked yet is asked, and sent at most one cancellation.
marked :
    (w v : Runs) (f : ℕ → Option Signal) (job task claim : ℕ) (x : Signal)
    → IsSingle w f
    → f task ≡ none
    → w.processors job ≡ some (task, claim)
    → v.processors ≡ w.processors
    → ((j : ℕ) → v.cancelling j ≡ (if job == j then some task else w.cancelling j))
    → ((t : ℕ) → (task == t) ≡ false → v.cancels t ≡ w.cancels t)
    → ((t : ℕ) → (task == t) ≡ false → v.expired t ≡ w.expired t)
    → v.cancels task ≤ 1
    → v.expired task ≡ is_late x
    → IsSingle v (note f task x)
unfolding note
marked w v f job task claim x h unheard at same marks sends fires few late = record {
  once = λ j t c e.
      let was : w.processors j ≡ some (t, c) = ap (λ f. f j) (sym same) ∙ e in
      elim (Bool-cases (job == j)) [
        | inl here ↦
            let is : job ≡ j = ground arith in
            let t_is : task ≡ t = pair-left (sym at ∙ ap w.processors is ∙ was) in
            IsOnce.signalled x (marks j ∙ rw here (ap some t_is))
              (subst (λ y. v.cancels y ≤ 1) t_is few)
              (subst (λ y. v.expired y ≡ is_late x) t_is late)
              (ap (λ b. if b then some (get_or_else (f task) x) else f t)
                  (let e : (task == t) ≡ true = ground arith in e)
                ∙ ap (λ o. some (get_or_else o x)) unheard)
        | inr off ↦ elim (Bool-cases (task == t)) [
          | inl again ↦
              let t_is : task ≡ t = ground arith in
              let is =
                h.alone job j t claim c (subst (λ x. w.processors job ≡ some (x, claim)) t_is at)
                  was in
              absurd (ground (arith, is, off))
          | inr other ↦
              IsOnce-same w v f (note f task x) j t (marks j ∙ rw off refl) (sends t other)
                (fires t other) (ap (λ b. if b then some (get_or_else (f task) x) else f t) other)
                (h.once j t c was)
        ]
      ];
  bounded = λ t. elim (Bool-cases (task == t)) [
    | inl is ↦ let t_is : task ≡ t = ground arith in subst (λ x. v.cancels x ≤ 1) t_is few
    | inr other ↦ subst (λ k. k ≤ 1) (sym (sends t other)) (h.bounded t)
  ];
  alone = λ j other t c second e f.
      h.alone j other t c second (ap (λ g. g j) (sym same) ∙ e) (ap (λ g. g other) (sym same) ∙ f);
}

eq_option-some : (o : Option ℕ) (n : ℕ) → eq_option o (some n) ≡ false → o ≢ some n
eq_option-some none n h e = cc e
eq_option-some (some k) n h e = let is : k ≡ n = cc e in ground (arith, h, is)

untouched_sends :
    (w : Runs) (f : ℕ → Option Signal) (job task : ℕ)
    → IsOnce w f job task
    → w.cancelling job ≢ some task
    → (w.cancels task ≡ 0) × (w.expired task ≡ false) × (f task ≡ none)
untouched_sends w f job task (IsOnce.untouched off none_sent in_time unheard) other =
    (none_sent, in_time, unheard)
untouched_sends w f job task (IsOnce.signalled x on few late first) other = absurd (other on)

-- One that is marked was signalled.
marked_first :
    (w : Runs) (f : ℕ → Option Signal) (job task : ℕ)
    → IsOnce w f job task
    → eq_option (w.cancelling job) (some task) ≡ true
    → (x : Signal) × (f task ≡ some x)
marked_first w f job task (IsOnce.untouched off none_sent in_time unheard) on =
    cc (on, eq_option-other (w.cancelling job) task off)
marked_first w f job task (IsOnce.signalled x on few late first) same = (x, first)

-- The same with the cancellation that is sent, if the task still runs.
marked_and_sent :
    (w v : Runs) (f : ℕ → Option Signal) (job task claim : ℕ) (x : Signal)
    → IsSingle w f
    → f task ≡ none
    → w.processors job ≡ some (task, claim)
    → v.processors ≡ w.processors
    → ((j : ℕ) → v.cancelling j ≡ (if job == j then some task else w.cancelling j))
    → v.cancels ≡ w.cancels
    → ((t : ℕ) → (task == t) ≡ false → v.expired t ≡ w.expired t)
    → w.cancels task ≡ 0
    → v.expired task ≡ is_late x
    → IsSingle (cancel v task) (note f task x)
unfolding cancel
marked_and_sent w v f job task claim x h unheard at same marks sends fires zero_sent late =
    let unsent : v.cancels task ≡ 0 = ap (λ g. g task) sends ∙ zero_sent in
    elim (Bool-cases (v.done task)) [
      | inl over ↦
          rw (over, cancel)
            (marked w v f job task claim x h unheard at same marks (λ t o. ap (λ g. g t) sends)
              fires (omega (arith, unsent)) late)
      | inr on ↦
          rw (on, cancel)
            (marked w (record v { cancels = update v.cancels task (suc (v.cancels task)) }) f job
              task claim x h unheard at same marks
              (λ t o.
                ap (λ b. if b then suc (v.cancels task) else v.cancels t) o ∙ ap (λ g. g t) sends)
              fires (ground (arith, unsent)) late)
    ]

pub request_cancel-IsSingle :
    (is_async : Bool) (w : Runs) (f : ℕ → Option Signal) (job : ℕ) (claim : Option ℕ)
    → IsSingle w f
    → IsSingle (request_cancel is_async w job claim) (hears w f job claim)
unfolding request_cancel ask hears
request_cancel-IsSingle is_async w f job claim h = elim (Option-cases (w.processors job)) [
  | inl off ↦ rw (off, request_cancel, hears) h
  | inr ((task, mine), at) ↦
      let at_once = h.once job task mine at in
      rw (at, request_cancel, hears)
        (rw (sym (is_other-meant claim mine))
          (elim (Bool-cases (eq_option (w.cancelling job) (some task))) [
            | inl marked_before ↦
                let (y, first) = marked_first w f job task at_once marked_before in
                elim (Bool-cases (w.done task || is_other claim mine)) [
                  | inl late ↦ rw (marked_before, late, ask) h
                  | inr due ↦
                      rw (marked_before, due, ask) (note-known w f task Signal.asks y first h)
                ]
            | inr new ↦ elim (Bool-cases (w.done task || is_other claim mine)) [
              | inl late ↦ rw (new, late, ask) h
              | inr due ↦
                  let (zero_sent, on_time, unheard) =
                    untouched_sends w f job task at_once
                      (eq_option-some (w.cancelling job) task new) in
                  rw (new, due, ask)
                    (elim (Bool-cases is_async) [
                      | inl on_loop ↦ rw on_loop (
                          marked_and_sent w
                            (record w { cancelling = update w.cancelling job (some task) }) f job
                            task mine Signal.asks h unheard at refl (λ j. refl) refl (λ t o. refl)
                            zero_sent on_time)
                      | inr thread ↦ rw thread (
                          marked w (record w { cancelling = update w.cancelling job (some task) }) f
                            job task mine Signal.asks h unheard at refl (λ j. refl) (λ t o. refl)
                            (λ t o. refl) (h.bounded task) on_time)
                    ])
            ]
          ]))
]

pub expire-IsSingle :
    (w : Runs) (f : ℕ → Option Signal) (job task claim : ℕ)
    → w.processors job ≡ some (task, claim)
    → IsSingle w f
    → IsSingle (expire w job task) (note f task Signal.times_out)
unfolding expire
expire-IsSingle w f job task claim at h =
    elim (Bool-cases (eq_option (w.cancelling job) (some task))) [
      | inl marked_before ↦
          let (y, first) = marked_first w f job task (h.once job task claim at) marked_before in
          rw (marked_before, expire) (note-known w f task Signal.times_out y first h)
      | inr new ↦
          let (zero_sent, on_time, unheard) =
            untouched_sends w f job task (h.once job task claim at)
              (eq_option-some (w.cancelling job) task new) in
          rw (new, expire)
            (marked_and_sent w
              (record w {
                expired = update w.expired task true;
                cancelling = update w.cancelling job (some task);
              })
              f job task claim Signal.times_out h unheard at refl (λ j. refl) refl
              (λ t o. ap (λ b. if b then true else w.expired t) o) zero_sent (ground arith))
    ]
