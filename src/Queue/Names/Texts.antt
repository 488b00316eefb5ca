-- ===== src/Queue/Names/Texts.antt =====
-- Texts as lists of codes, for toro/keys.py: what the tests `startswith`, `endswith` and `in` answer.
use toro.Prelude.{
  ℕ, ◌+◌, ◌≡◌, refl, List, [], ◌∷◌, ◌++◌, Bool, true, false, not, ◌&&◌, arith, ◌==◌, ==_refl, count,
}
use toro.Options.Checks.{has_code}
use toro.Queue.Names.{same, starts_with, ends_with}

pub same_refl : (s : List ℕ) → same s s ≡ true
unfolding same
same_refl [] = refl
same_refl (c ∷ s) = rw (==_refl c, same_refl s) refl

pub starts_with-append : (p x : List ℕ) → starts_with p (p ++ x) ≡ true
unfolding starts_with
starts_with-append [] x = refl
starts_with-append (c ∷ p) x = rw (==_refl c, starts_with-append p x) refl

ends_with_self : (s : List ℕ) → ends_with s s ≡ true
unfolding ends_with
ends_with_self [] = same_refl []
ends_with_self (c ∷ s) = rw (same_refl (c ∷ s)) refl

pub ends_with-append : (x s : List ℕ) → ends_with s (x ++ s) ≡ true
unfolding ends_with
ends_with-append [] s = ends_with_self s
ends_with-append (c ∷ x) s = rw (ends_with-append x s) (ground arith)

-- The only `:` of a namespace is its last character.
unfoldable pub closes : List ℕ → Bool
closes [] = false
closes (c ∷ []) = c == b':'
closes (c ∷ d ∷ s) = not (c == b':') && closes (d ∷ s)

-- A text with such a start, cut behind the first `:` that follows an id.
pub starts_with-cut :
    (n id rest : List ℕ)
    → closes n ≡ true
    → starts_with n (id ++ (b':' ∷ rest)) ≡ true
    → starts_with n (id ++ (b':' ∷ [])) ≡ true
unfolding starts_with closes
starts_with-cut [] id rest only h = refl
starts_with-cut (c ∷ []) [] rest only h = ground arith
starts_with-cut (c ∷ d ∷ n) [] rest only h = ground arith
starts_with-cut (c ∷ []) (i ∷ id) rest only h = ground arith
starts_with-cut (c ∷ d ∷ n) (i ∷ id) rest only h =
    ground (arith, starts_with-cut (d ∷ n) id rest (ground arith) (ground arith))

pub count-append : (c : ℕ) (s t : List ℕ) → count c (s ++ t) ≡ count c s + count c t
unfolding count
count-append c [] t = omega arith
count-append c (a ∷ s) t = ground (arith, count-append c s t)

pub count-has : (c : ℕ) (s : List ℕ) → has_code c s ≡ false → count c s ≡ 0
unfolding count has_code
count-has c [] h = refl
count-has c (a ∷ s) h = ground (arith, count-has c s (ground arith))

pub same-path : (s t : List ℕ) → same s t ≡ true → s ≡ t
unfolding same
same-path [] [] h = refl
same-path [] (b ∷ t) h = cc h
same-path (a ∷ s) [] h = cc h
same-path (a ∷ s) (b ∷ t) h =
    let head : a ≡ b = ground arith in cc (head, same-path s t (ground arith))
