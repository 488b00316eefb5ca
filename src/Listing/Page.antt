-- ===== src/Listing/Page.antt =====
-- The walk to a page of LIST_ROOTS, toro/scripts.py: the same page as of the filtered state.
use mathlib.Core.List.{append_assoc, append-nil}
use toro.Prelude.{
  ℕ, zero, suc, ◌+◌, ◌-◌, ◌≤◌, ◌<◌, ◌≡◌, refl, sym, ap, ◌∙◌, List, [], ◌∷◌, ◌++◌, ◌&&◌, Option,
  arith, ltb, leb, if◌then◌else◌, is_some, length, take, drop, Bool-cases, inl, inr, take-drop,
  drop-drop, drop_all, length-take, length-append, length-drop, take-append, drop-append, take_all,
}
use toro.Scripts.Roots.{gather, page}
use toro.Listing.Count.{roots, roots-append}

-- What is left of a page after the ids that it has: `n` may be 0.
unfoldable pub left : ℕ → ℕ → ℕ → ℕ → List ℕ → List ℕ
left start want seen got xs = take (want - got) (drop (start - seen) xs)

-- One more root, seen at its place.
left-cons :
    (start want seen m : ℕ) (ids xs : List ℕ)
    → (if leb start seen && ltb (length ids) want then ids ++ (m ∷ []) else ids)
        ++ left start want
            (suc seen)
            (length (if leb start seen && ltb (length ids) want then ids ++ (m ∷ []) else ids))
            xs
      ≡ ids ++ left start want seen (length ids) (m ∷ xs)
unfolding left
left-cons start want seen m ids xs = elim (Bool-cases (leb start seen)) [
  | inl there ↦ elim (Bool-cases (ltb (length ids) want)) [
    | inl room ↦
        let size = length-append ids (m ∷ []) in
        let a : want - length (ids ++ (m ∷ [])) ≡ want - suc (length ids) = omega (arith, size) in
        let b : want - length ids ≡ suc (want - suc (length ids)) = ground arith in
        let c : start - suc seen ≡ 0 = ground arith in
        let d : start - seen ≡ 0 = ground arith in
        rw (there, room, a, b, c, d) (append_assoc ids (m ∷ []) (take (want - suc (length ids)) xs))
    | inr full ↦ let a : want - length ids ≡ 0 = ground arith in rw (there, full, a) refl
  ]
  | inr before ↦ let d : start - seen ≡ suc (start - suc seen) = ground arith in rw (before, d) refl
]

left-nil : (start want seen got : ℕ) (ids : List ℕ) → ids ++ left start want seen got [] ≡ ids
unfolding left
left-nil start want seen got ids =
    let e : drop (start - seen) [] ≡ [] = drop_all (start - seen) [] (omega arith) in
    ap (λ t. ids ++ take (want - got) t) e
    ∙ ap (λ t. ids ++ t) (take_all (want - got) [] (omega arith))
    ∙ append-nil ids

-- The roots of two parts of a state, one after the other.
left-append :
    (start want seen got : ℕ) (xs ys : List ℕ)
    → left start want seen got (xs ++ ys)
      ≡ left start want seen got xs
        ++ left start want (seen + length xs) (got + length (left start want seen got xs)) ys
unfolding left
left-append start want seen got xs ys =
    let w = want - got in
    let k = start - seen in
    let size = length-take w (drop k xs) in
    let a : w - length (drop k xs) ≡ want - (got + length (take w (drop k xs))) =
      omega (arith, size) in
    let b : k - length xs ≡ start - (seen + length xs) = omega arith in
    ap (take w) (drop-append k xs ys)
    ∙ take-append w (drop k xs) (drop (k - length xs) ys)
    ∙ ap (λ n. take w (drop k xs) ++ take n (drop (k - length xs) ys)) a
    ∙ ap (λ n. take w (drop k xs) ++ take (want - (got + length (take w (drop k xs)))) (drop n ys))
        b

drop-length-take : {A : Type 0} (n : ℕ) (xs : List A) → drop (length (take n xs)) xs ≡ drop n xs
drop-length-take zero xs = refl
drop-length-take (suc n) [] = refl
drop-length-take (suc n) (x ∷ xs) = drop-length-take n xs

gather-left :
    (score : ℕ → Option ℕ) (start want : ℕ) (ms : List ℕ) (seen : ℕ) (ids : List ℕ)
    → ((gather score start want ms seen ids).0 ≡ seen + length (roots score ms))
      × ((gather score start want ms seen ids).1
          ≡ ids ++ left start want seen (length ids) (roots score ms))
unfolding gather roots left
gather-left score start want [] seen ids =
    (omega arith, sym (left-nil start want seen (length ids) ids))
gather-left score start want (m ∷ ms) seen ids = elim (Bool-cases (is_some (score m))) [
  | inl child ↦ rw child (gather-left score start want ms seen ids)
  | inr root ↦
      let next = if leb start seen && ltb (length ids) want then ids ++ (m ∷ []) else ids in
      let (count, rest) = gather-left score start want ms (suc seen) next in
      rw root (omega (arith, count), rest ∙ left-cons start want seen m ids (roots score ms))
]

-- A page that the roots `xs` were put on, and what the roots `ys` add to it.
page-step :
    (start want seen seen1 : ℕ) (ids ids1 xs ys : List ℕ)
    → seen1 ≡ seen + length xs
    → ids1 ≡ ids ++ left start want seen (length ids) xs
    → ids1 ++ left start want seen1 (length ids1) ys
      ≡ ids ++ left start want seen (length ids) (xs ++ ys)
page-step start want seen seen1 ids ids1 xs ys count got =
    let more = left start want seen (length ids) xs in
    let size = ap length got ∙ length-append ids more in
    ap (λ n. ids1 ++ left start want n (length ids1) ys) count
    ∙ ap (λ n. ids1 ++ left start want (seen + length xs) n ys) size
    ∙ ap (λ t. t ++ left start want (seen + length xs) (length ids + length more) ys) got
    ∙ append_assoc ids more (left start want (seen + length xs) (length ids + length more) ys)
    ∙ ap (λ t. ids ++ t) (sym (left-append start want seen (length ids) xs ys))

-- The walk gives the page of the rest: its fuel is enough.
pub page-left :
    (fuel : ℕ) (score : ℕ → Option ℕ) (xs : List ℕ) (chunk start want at seen : ℕ) (ids : List ℕ)
    → 0 < chunk
    → length xs ≤ at + fuel
    → page fuel score xs chunk start want at seen ids
      ≡ ids ++ left start want seen (length ids) (roots score (drop at xs))
unfolding page roots
page-left zero score xs chunk start want at seen ids pos enough =
    let none_left : drop at xs ≡ [] = drop_all at xs (omega arith) in
    rw none_left (sym (left-nil start want seen (length ids) ids))
page-left (suc fuel) score xs chunk start want at seen ids pos enough =
    elim (Bool-cases (ltb at (length xs))) [
      | inr done ↦
          let none_left : drop at xs ≡ [] = drop_all at xs (ground arith) in
          rw (done, none_left) (sym (left-nil start want seen (length ids) ids))
      | inl more ↦ elim (Bool-cases (ltb (length ids) want)) [
        | inr full ↦
            let a : want - length ids ≡ 0 = ground arith in
            rw (more, full) (unfold left in rw a (sym (append-nil ids)))
        | inl room ↦
            let ms = take chunk (drop at xs) in
            let size = length-take chunk (drop at xs) in
            let rest = length-drop at xs in
            let (count, got) = gather-left score start want ms seen ids in
            let seen1 = (gather score start want ms seen ids).0 in
            let ids1 = (gather score start want ms seen ids).1 in
            let on =
              page-left fuel score xs chunk start want (at + length ms) seen1 ids1 pos
                (ground (arith, size, rest)) in
            rw (more, room)
              (on
                ∙ ap (λ t. ids1 ++ left start want seen1 (length ids1) (roots score t))
                    (sym (drop-drop (length ms) at xs) ∙ drop-length-take chunk (drop at xs))
                ∙ page-step start want seen seen1 ids ids1 (roots score ms)
                    (roots score (drop chunk (drop at xs))) count got
                ∙ ap (λ t. ids ++ left start want seen (length ids) t)
                    (sym (roots-append score ms (drop chunk (drop at xs)))
                      ∙ ap (roots score) (take-drop chunk (drop at xs))))
      ]
    ]
