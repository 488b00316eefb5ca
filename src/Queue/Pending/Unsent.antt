-- ===== src/Queue/Pending/Unsent.antt =====
-- toro/queue.py, `PendingJobs.flush`: what is left in hand.
use toro.Prelude.{
  ℕ, ◌≡◌, refl, sym, subst, List, [], ◌∷◌, ◌++◌, Bool, false, Option, none, some, length, arith,
  Option-cases, Bool-cases, inl, inr, ◌⊎◌,
}
use toro.Queue.Pending.{
  Answer, built, error, Flushed, jobs, partial, refused, unheard, stage_all, sort_replies, ending,
  settle, flush,
}

-- Each call with its reply: the calls whose reply is an error, and the jobs of the others.
pub data Sorted {C J : Type 0} : List C → List (Answer J) → List C → List J → Type 0 where
  done : Sorted [] [] [] []
  went :
      (c : C) (j : J) (cs : List C) (rs : List (Answer J)) (kept : List C) (sent : List J)
      → Sorted cs rs kept sent
      → Sorted (c ∷ cs) (built j ∷ rs) kept (j ∷ sent)
  stays :
      (c : C) (e : ℕ) (cs : List C) (rs : List (Answer J)) (kept : List C) (sent : List J)
      → Sorted cs rs kept sent
      → Sorted (c ∷ cs) (error e ∷ rs) (c ∷ kept) sent

-- The jobs that a flush tells of, by its return or by its PartialFlushError.
abbrev pub told : {J : Type 0} → Flushed J → List J
told (jobs js) = js
told (partial js es) = js
told refused = []
told unheard = []

sort_replies-Sorted :
    {C J : Type 0} (cs : List C) (rs : List (Answer J))
    → length cs ≡ length rs
    → Sorted cs rs (sort_replies cs rs).0 (sort_replies cs rs).2
unfolding sort_replies
sort_replies-Sorted [] [] e = Sorted.done
sort_replies-Sorted [] (r ∷ rs) e = absurd (omega arith)
sort_replies-Sorted (c ∷ cs) [] e = absurd (omega arith)
sort_replies-Sorted (c ∷ cs) (built j ∷ rs) e =
    Sorted.went c j cs rs _ _ (sort_replies-Sorted cs rs (omega arith))
sort_replies-Sorted (c ∷ cs) (error n ∷ rs) e =
    Sorted.stays c n cs rs _ _ (sort_replies-Sorted cs rs (omega arith))

told-ending : {J : Type 0} (es : List ℕ) (js : List J) → told (ending es js) ≡ js
told-ending [] js = refl
told-ending (e ∷ es) js = refl

settled :
    {C J : Type 0} (calls later : List C) (replies : List (Answer J))
    → length calls ≡ length replies
    → Sorted calls replies
        (sort_replies calls replies).0
        (told (settle calls later (some replies)).1)
      × ((settle calls later (some replies)).0 ≡ (sort_replies calls replies).0 ++ later)
unfolding settle
settled calls later replies e =
    let n = sort_replies calls replies in
    (
      subst (λ js. Sorted calls replies n.0 js) (sym (told-ending n.1 n.2))
          (sort_replies-Sorted calls replies e),
      refl,
    )

-- After a flush of a batch either the whole batch stands and no job is told of: a call was refused, the
-- data model was, or nothing was heard of the round trip. Or each call was answered: those whose
-- script failed stand, in their order, and the jobs of the others are told of, each once, also where
-- the flush raises. Calls that were collected meanwhile stand behind. This where a round trip that is
-- heard of has a reply for each call.
pub flush-unsent :
    {C S J : Type 0} (stage : C → Option S) (stamped : Bool) (c : C) (cs later : List C)
    (send : List S → Option (List (Answer J)))
    → ((staged : List S) (replies : List (Answer J))
        → send staged ≡ some replies
        → length (c ∷ cs) ≡ length replies)
    → (((flush stage stamped (c ∷ cs) later send).0 ≡ (c ∷ cs) ++ later)
        × (told (flush stage stamped (c ∷ cs) later send).1 ≡ [])
        × ((stage_all stage (c ∷ cs) ≡ none)
            ⊎ ((stamped ≡ false)
                ⊎ ((staged : List S) × (stage_all stage (c ∷ cs) ≡ some staged)
                    × (send staged ≡ none)))))
      ⊎ ((staged : List S) × (replies : List (Answer J)) × (kept : List C) × (send staged
            ≡ some replies)
          × Sorted (c ∷ cs) replies kept (told (flush stage stamped (c ∷ cs) later send).1)
          × ((flush stage stamped (c ∷ cs) later send).0 ≡ kept ++ later))
unfolding flush settle
flush-unsent {C} {S} {J} stage stamped c cs later send heard =
    elim (Option-cases (stage_all stage (c ∷ cs))) [
      | inl off ↦ inl (rw (off, flush) (refl, refl, inl refl))
      | inr (staged, right) ↦ elim (Bool-cases stamped) [
        | inl ok ↦ elim (Option-cases (send staged)) [
          | inl lost ↦
              inl (rw (right, flush) (rw (ok, lost) (refl, refl, inr (inr (staged, refl, lost)))))
          | inr (replies, got) ↦ inr (
            staged,
            replies,
            (sort_replies (c ∷ cs) replies).0,
            got,
            rw (right, flush)
                (rw (ok, got) (settled (c ∷ cs) later replies (heard staged replies got)).0),
            rw (right, flush)
                (rw (ok, got) (settled (c ∷ cs) later replies (heard staged replies got)).1),
          )
        ]
        | inr bad ↦ inl (rw (right, flush) (rw bad (refl, refl, inr (inl refl))))
      ]
    ]
