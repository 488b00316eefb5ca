-- ===== src/Queue/Names/Clear.antt =====
-- toro/keys.py and toro/queue.py: what the tests of a custom id leave out.
use toro.Prelude.{
  ℕ, ◌≡◌, ◌≢◌, refl, sym, ap, ◌∙◌, subst, List, [], ◌∷◌, ◌++◌, Bool, true, false, not, ◌&&◌, ◌||◌,
  Option, none, some, arith, leb, ◌==◌, if◌then◌else◌, Bool-cases, inl, inr, guard-some, some-inj,
  length,
}
use toro.Options.Checks.{has_control, has_code}
use toro.Queue.Names.{
  same, starts_with, ends_with, among, own_names, namespaces, job_suffixes, Conflict,
  namespace_conflict, suffix_conflict, job_id_conflict, or_else, is_none, all_digits,
  max_job_id_chars, custom_job_id,
}
use mathlib.Core.List.{append_assoc}
use toro.Queue.Names.Texts.{
  same-path, starts_with-append, ends_with-append, closes, starts_with-cut,
}

-- A text that an INCR mints: decimal digits.
abbrev pub is_decimal : ℕ → Bool
is_decimal c = leb 48 c && leb c 57

all_digits-wider :
    (is_digit : ℕ → Bool)
    → ((c : ℕ) → is_decimal c ≡ true → is_digit c ≡ true)
    → (d : List ℕ) → all_digits is_decimal d ≡ true
    → all_digits is_digit d ≡ true
unfolding all_digits
all_digits-wider is_digit wider [] h = refl
all_digits-wider is_digit wider (c ∷ d) h =
    ground (arith, wider c (ground arith), all_digits-wider is_digit wider d (ground arith))

-- What no test of a list of namespaces, or of suffixes, found.
no_namespace :
    (id n : List ℕ) (ns : List (List ℕ))
    → namespace_conflict id ns ≡ none
    → among n ns ≡ true
    → starts_with n (id ++ (b':' ∷ [])) ≡ false
unfolding namespace_conflict among
no_namespace id n [] h m = cc m
no_namespace id n (t ∷ ns) h m = elim (Bool-cases (starts_with t (id ++ (b':' ∷ [])))) [
  | inl e ↦ absurd (ground (arith, e, h))
  | inr e ↦ elim (Bool-cases (same n t)) [
    | inl at ↦ subst (λ x. starts_with x (id ++ (b':' ∷ [])) ≡ false) (sym (same-path n t at)) e
    | inr off ↦ no_namespace id n ns (ground (arith, e, h)) (ground (arith, off, m))
  ]
]

no_suffix :
    (id x : List ℕ) (xs : List (List ℕ))
    → suffix_conflict id xs ≡ none
    → among x xs ≡ true
    → ends_with x id ≡ false
unfolding suffix_conflict among
no_suffix id x [] h m = cc m
no_suffix id x (t ∷ xs) h m = elim (Bool-cases (ends_with t id)) [
  | inl e ↦ absurd (ground (arith, e, h))
  | inr e ↦ elim (Bool-cases (same x t)) [
    | inl at ↦ subst (λ y. ends_with y id ≡ false) (sym (same-path x t at)) e
    | inr off ↦ no_suffix id x xs (ground (arith, e, h)) (ground (arith, off, m))
  ]
]

unfoldable all_close : List (List ℕ) → Bool
all_close [] = true
all_close (n ∷ ns) = closes n && all_close ns

among-closes :
    (n : List ℕ) (ns : List (List ℕ)) → all_close ns ≡ true → among n ns ≡ true → closes n ≡ true
unfolding all_close among
among-closes n [] h m = cc m
among-closes n (t ∷ ns) h m = elim (Bool-cases (same n t)) [
  | inl at ↦ subst (λ y. closes y ≡ true) (sym (same-path n t at)) (ground arith)
  | inr off ↦ among-closes n ns (ground arith) (ground (arith, off, m))
]

namespaces_close : all_close namespaces ≡ true
unfolding all_close closes
namespaces_close = refl

-- What the tests' tables say of an id: it is no name of the queue's own keys; neither its hash
-- nor any key of its own is in a namespace; its hash is no other job's key; and no INCR mints it.
pub record IsClear (id : List ℕ) : Type 0 where
  pub own : (name : List ℕ) → among name own_names ≡ true → id ≢ name
  pub spaced : (n x : List ℕ) → among n namespaces ≡ true → id ≢ n ++ x
  pub spaced_own : (n x rest : List ℕ) → among n namespaces ≡ true → id ++ (b':' ∷ rest) ≢ n ++ x
  pub others : (x job : List ℕ) → among x job_suffixes ≡ true → id ≢ job ++ x
  pub minted : (d : List ℕ) → all_digits is_decimal d ≡ true → id ≢ d

none_found {ℓ} :
    {A : Type ℓ} (b : Bool) (a : A) (o p : Option A)
    → (if b then some a else or_else o p) ≡ none
    → (b ≡ false) × (o ≡ none) × (p ≡ none)
none_found true a o p h = cc h
none_found false a none p h = (refl, refl, h)
none_found false a (some c) p h = cc h

is_none-path {ℓ} : {A : Type ℓ} (o : Option A) → is_none o ≡ true → o ≡ none
is_none-path none h = refl
is_none-path (some a) h = cc h

-- An id that is accepted is taken as it is, and no test of `job_id_conflict` finds it. `is_digit` is Unicode's test of a digit, which takes the decimal ones.
pub custom_job_id-IsClear :
    (is_digit : ℕ → Bool) (id out : List ℕ)
    → ((c : ℕ) → is_decimal c ≡ true → is_digit c ≡ true)
    → custom_job_id is_digit id ≡ some out
    → (out ≡ id) × IsClear id
unfolding custom_job_id job_id_conflict
custom_job_id-IsClear is_digit id out wider h =
    let (named, h1) = guard-some (not ((length id == 0) || all_digits is_digit id)) _ out h in
    let (plain, h2) =
      guard-some
        (not (has_code b'/' id) && not (has_control id) && leb (length id) max_job_id_chars) _ out
        h1 in
    let (free, is) = guard-some (is_none (job_id_conflict id)) _ out h2 in
    let (own, spaces, suffixes) =
      none_found (among id own_names) Conflict.own_key (namespace_conflict id namespaces)
        (suffix_conflict id job_suffixes) (is_none-path (job_id_conflict id) free) in
    let apart : (n x rest : List ℕ) → among n namespaces ≡ true → id ++ (b':' ∷ rest) ≢ n ++ x =
      λ n x rest m e.
        let start : starts_with n (id ++ (b':' ∷ rest)) ≡ true =
          subst (λ y. starts_with n y ≡ true) (sym e) (starts_with-append n x) in
        let cut = starts_with-cut n id rest (among-closes n namespaces namespaces_close m) start in
        let off = no_namespace id n namespaces spaces m in cc (cut, off) in
    (
      sym (some-inj is),
      record {
        own = λ name m e. cc (subst (λ y. among y own_names ≡ true) (sym e) m, own);
        spaced = λ n x m e.
            apart n (x ++ (b':' ∷ [])) [] m
              (ap (λ y. y ++ (b':' ∷ [])) e ∙ append_assoc n x (b':' ∷ []));
        spaced_own = apart;
        others = λ x job m e.
            let at : ends_with x id ≡ true =
              subst (λ y. ends_with x y ≡ true) (sym e) (ends_with-append job x) in
            let off = no_suffix id x job_suffixes suffixes m in cc (at, off);
        minted = λ d m e. ground (
          arith,
          named,
          all_digits-wider is_digit wider id
              (subst (λ y. all_digits is_decimal y ≡ true) (sym e) m),
        );
      },
    )
