-- ===== src/Worker/Signals/Turns.antt =====
-- toro/worker.py: the beginning and the end of a run.
use toro.Prelude.{
  ℕ, ◌≡◌, refl, sym, ◌∙◌, subst, inl, inr, ◌⊎◌, true, false, Option, none, some, ◌==◌,
  if◌then◌else◌, eq_option, update, arith, Bool-cases, ==_refl,
}
use toro.Worker.Signals.{Runs, begin_run, end_processor, is_task, end_run}
use toro.Worker.Signals.History.{Signal, IsNew, IsOnce, IsSingle, IsOnce-same, pair-left}

-- What stands under a job after an entry was written for another, or for it.
entry_of :
    (f : ℕ → Option (ℕ × ℕ)) (job j : ℕ) (new : Option (ℕ × ℕ)) (x : ℕ × ℕ)
    → update f job new j ≡ some x
    → ((job ≡ j) × (new ≡ some x)) ⊎ (((job == j) ≡ false) × (f j ≡ some x))
entry_of f job j new x e = elim (Bool-cases (job == j)) [
  | inl here ↦ inl (ground arith, subst (λ b. (if b then new else f j) ≡ some x) here e)
  | inr other ↦ inr (other, subst (λ b. (if b then new else f j) ≡ some x) other e)
]

pub begin_run-IsSingle :
    (w : Runs) (f : ℕ → Option Signal) (job task claim : ℕ)
    → w.processors job ≡ none
    → IsNew w f task
    → IsSingle w f
    → IsSingle (begin_run w job task claim) f
unfolding begin_run
begin_run-IsSingle w f job task claim off new h = record {
  once = λ j t c e. elim (entry_of w.processors job j (some (task, claim)) (t, c) e) [
    | inl (here, is) ↦
        subst (λ x. IsOnce (begin_run w job task claim) f j x) (pair-left is)
          (IsOnce.untouched (new.unasked j) new.unsent new.in_time new.unsignalled)
    | inr (other, was) ↦
        IsOnce-same w (begin_run w job task claim) f f j t refl refl refl refl (h.once j t c was)
  ];
  bounded = h.bounded;
  alone = λ j other t c second e f.
      elim (entry_of w.processors job j (some (task, claim)) (t, c) e) [
        | inl (here, is) ↦
            elim (entry_of w.processors job other (some (task, claim)) (t, second) f) [
              | inl (there, again) ↦ sym here ∙ there
              | inr (off_it, was) ↦ absurd (
                  new.free other second
                    (subst (λ x. w.processors other ≡ some (x, second)) (sym (pair-left is)) was))
            ]
        | inr (off_it, was) ↦
            elim (entry_of w.processors job other (some (task, claim)) (t, second) f) [
              | inl (there, again) ↦ absurd (
                  new.free j c
                    (subst (λ x. w.processors j ≡ some (x, c)) (sym (pair-left again)) was))
              | inr (off_too, was_too) ↦ h.alone j other t c second was was_too
            ]
      ];
}

off_it :
    (w : Runs) (job j task : ℕ)
    → (job == j) ≡ false
    → (end_run w job task).cancelling j ≡ w.cancelling j
unfolding end_run
off_it w job j task other = elim (Bool-cases (eq_option (w.cancelling job) (some task))) [
  | inl on ↦ rw on (rw other refl)
  | inr off ↦ rw off refl
]

pub end_run-IsSingle :
    (w : Runs) (f : ℕ → Option Signal) (job task claim : ℕ)
    → w.processors job ≡ some (task, claim)
    → IsSingle w f
    → IsSingle (end_run w job task) f
unfolding end_run
end_run-IsSingle w f job task claim at h =
    let own : is_task (w.processors job) task ≡ true = rw at (==_refl task) in
    let entry : (j t c : ℕ)
        → (end_run w job task).processors j ≡ some (t, c)
        → ((job == j) ≡ false) × (w.processors j ≡ some (t, c)) =
      λ j t c e.
        elim (entry_of w.processors job j none (t, c)
          (subst (λ b. (if b then update w.processors job none else w.processors) j ≡ some (t, c))
            own e)) [ inl (here, is) ↦ absurd (cc is) | inr x ↦ x ] in
    record {
      once = λ j t c e.
          let (other, was) = entry j t c e in
          IsOnce-same w (end_run w job task) f f j t (off_it w job j task other) refl refl refl
            (h.once j t c was);
      bounded = h.bounded;
      alone = λ j other t c second e f.
          h.alone j other t c second (entry j t c e).1 (entry other t second f).1;
    }

pub end_processor-IsSingle :
    (w : Runs) (f : ℕ → Option Signal) (task : ℕ) → IsSingle w f → IsSingle (end_processor w task) f
unfolding end_processor
end_processor-IsSingle w f task h = record {
  once =
      λ j t c e. IsOnce-same w (end_processor w task) f f j t refl refl refl refl (h.once j t c e);
  bounded = h.bounded;
  alone = h.alone;
}
