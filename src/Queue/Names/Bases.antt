-- ===== src/Queue/Names/Bases.antt =====
-- toro/keys.py, `Keys.base`: the bases of two queues.
use toro.Prelude.{
  ℕ, ◌≡◌, refl, sym, ap, ◌∙◌, subst, List, [], ◌∷◌, ◌++◌, Bool, true, false, not, ◌&&◌, ◌||◌, some,
  arith, leb, ◌==◌, bind-some, guard-some, some-inj, length, count,
}
use toro.Options.Checks.{has_control, has_code}
use toro.Queue.Names.{max_segment_chars, check_name, base}
use toro.Queue.Names.Texts.{count-append, count-has}

cons-inj : {a b : ℕ} {s t : List ℕ} → a ∷ s ≡ b ∷ t → (a ≡ b) × (s ≡ t)
cons-inj h = (cc h, cc h)

colons-one : (n : List ℕ) → has_code b':' n ≡ false → count b':' (n ++ (b':' ∷ [])) ≡ 1
unfolding count
colons-one n h = omega (arith, count-append b':' n (b':' ∷ []), count-has b':' n h)

-- A name with no `:`, before a last one, is no text with a `:` in its middle.
no_colon_within :
    (n s m : List ℕ)
    → has_code b':' n ≡ false
    → n ++ (b':' ∷ []) ≡ s ++ (b':' ∷ (m ++ (b':' ∷ [])))
    → ⊥
unfolding count
no_colon_within n s m h e =
    let one = colons-one n h in
    let more = count-append b':' s (b':' ∷ (m ++ (b':' ∷ []))) in
    let last = count-append b':' m (b':' ∷ []) in ground (arith, ap (count b':') e, one, more, last)

drop_last : (n m : List ℕ) → n ++ (b':' ∷ []) ≡ m ++ (b':' ∷ []) → n ≡ m
drop_last [] [] e = refl
drop_last [] (b ∷ []) e = cc e
drop_last [] (b ∷ c ∷ m) e = cc e
drop_last (a ∷ []) [] e = cc e
drop_last (a ∷ b ∷ n) [] e = cc e
drop_last (a ∷ n) (b ∷ m) e = let (head, tail) = cons-inj e in cc (head, drop_last n m tail)

split_base :
    (p q n m : List ℕ)
    → has_code b':' n ≡ false
    → has_code b':' m ≡ false
    → p ++ (b':' ∷ (n ++ (b':' ∷ []))) ≡ q ++ (b':' ∷ (m ++ (b':' ∷ [])))
    → (p ≡ q) × (n ≡ m)
split_base [] [] n m hn hm e = (refl, drop_last n m (cons-inj e).1)
split_base [] (b ∷ q) n m hn hm e = absurd (no_colon_within n q m hn (cons-inj e).1)
split_base (a ∷ p) [] n m hn hm e = absurd (no_colon_within m p n hm (sym (cons-inj e).1))
split_base (a ∷ p) (b ∷ q) n m hn hm e =
    let (head, tail) = cons-inj e in
    let (front, name) = split_base p q n m hn hm tail in (cc (head, front), name)

check_name-plain :
    (s out : List ℕ) (colons : Bool)
    → check_name s colons ≡ some out
    → (out ≡ s) × (colons ≡ false → has_code b':' s ≡ false)
unfolding check_name
check_name-plain s out colons h =
    let (sized, h1) =
      guard-some (not (length s == 0) && leb (length s) max_segment_chars) _ out h in
    let (plain, is) =
      guard-some (not (has_control s) && (not (has_code b':' s) || colons)) _ out h1 in
    (sym (some-inj is), λ off. ground (arith, plain, off))

-- Two queues have one base only if their names and their prefixes are the same, though a prefix may
-- have a `:` of its own.
pub base-inj :
    (name other prefix second b : List ℕ)
    → base name prefix ≡ some b
    → base other second ≡ some b
    → (name ≡ other) × (prefix ≡ second)
unfolding base
base-inj name other prefix second b h k =
    let (n, n_ok, h1) = bind-some (check_name name false) _ b h in
    let (p, p_ok, is) = bind-some (check_name prefix true) _ b h1 in
    let (m, m_ok, k1) = bind-some (check_name other false) _ b k in
    let (q, q_ok, js) = bind-some (check_name second true) _ b k1 in
    let (n_is, n_plain) = check_name-plain name n false n_ok in
    let (m_is, m_plain) = check_name-plain other m false m_ok in
    let (p_is, _) = check_name-plain prefix p true p_ok in
    let (q_is, _) = check_name-plain second q true q_ok in
    let (front, back) =
      split_base p q n m (subst (λ x. has_code b':' x ≡ false) (sym n_is) (n_plain refl))
        (subst (λ x. has_code b':' x ≡ false) (sym m_is) (m_plain refl))
        (some-inj is ∙ sym (some-inj js)) in
    (sym n_is ∙ back ∙ m_is, sym p_is ∙ front ∙ q_is)
