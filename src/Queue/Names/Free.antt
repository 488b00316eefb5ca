-- ===== src/Queue/Names/Free.antt =====
-- toro/keys.py and toro/queue.py: the keys of a custom id are no other keys of its queue.
use toro.Prelude.{
  ℕ, ◌≡◌, refl, sym, ap, ◌∙◌, List, [], ◌∷◌, ◌++◌, Bool, true, some, arith, if◌then◌else◌, count,
}
use toro.Options.Values.{codes}
use toro.Queue.Names.{same, among, own_names, namespaces, job_suffixes, all_digits, custom_job_id}
use toro.Queue.Names.Keys.{Own, own_name, Space, space_prefix, Aux, aux_suffix, QueueKey, key_name}
use toro.Queue.Names.Texts.{count-append}
use toro.Queue.Names.Clear.{is_decimal, IsClear, custom_job_id-IsClear}

-- An id of a job: a custom one that was accepted, or one that an INCR minted.
pub data IsJobId (is_digit : ℕ → Bool) (id : List ℕ) : Type 0 where
  custom : custom_job_id is_digit id ≡ some id → IsJobId is_digit id
  minted : all_digits is_decimal id ≡ true → IsJobId is_digit id

-- A key of the queue, whose job's id is one.
unfoldable pub IsKey : (ℕ → Bool) → QueueKey → Type 0
IsKey is_digit (QueueKey.own_key k) = Unit {0}
IsKey is_digit (QueueKey.spaced space x) = Unit {0}
IsKey is_digit (QueueKey.hash_of job) = IsJobId is_digit job
IsKey is_digit (QueueKey.aux_of job a) = IsJobId is_digit job

-- A name of the queue's own keys is tested for, and has no `:`.
own_name-lem : (k : Own) → (among (own_name k) own_names ≡ true) × (count b':' (own_name k) ≡ 0)
unfolding own_name among same count
own_name-lem Own.id = (refl, refl)
own_name-lem Own.prioritized = (refl, refl)
own_name-lem Own.marker = (refl, refl)
own_name-lem Own.pc = (refl, refl)
own_name-lem Own.active = (refl, refl)
own_name-lem Own.delayed = (refl, refl)
own_name-lem Own.completed = (refl, refl)
own_name-lem Own.failed = (refl, refl)
own_name-lem Own.waiting_children = (refl, refl)
own_name-lem Own.children = (refl, refl)
own_name-lem Own.roots_scratch = (refl, refl)
own_name-lem Own.meta_paused = (refl, refl)
own_name-lem Own.events = (refl, refl)
own_name-lem Own.limiter = (refl, refl)
own_name-lem Own.cancel = (refl, refl)
own_name-lem Own.cancelled = (refl, refl)
own_name-lem Own.held = (refl, refl)
own_name-lem Own.stalled = (refl, refl)
own_name-lem Own.stalled_check = (refl, refl)
own_name-lem Own.repeat = (refl, refl)
own_name-lem Own.workers = (refl, refl)
own_name-lem Own.departed = (refl, refl)
own_name-lem Own.meta = (refl, refl)
own_name-lem Own.totals = (refl, refl)

space_prefix-lem : (space : Space) → among (space_prefix space) namespaces ≡ true
unfolding space_prefix among same
space_prefix-lem Space.scheduler = refl
space_prefix-lem Space.worker = refl
space_prefix-lem Space.metrics_bucket = refl
space_prefix-lem Space.dedup = refl
space_prefix-lem Space.holder = refl
space_prefix-lem Space.behind = refl
space_prefix-lem Space.add_token = refl
space_prefix-lem Space.finish = refl

-- A suffix without its `:`, and which one it is.
unfoldable aux_tail : Aux → List ℕ
aux_tail Aux.lock = codes "lock"
aux_tail Aux.logs = codes "logs"
aux_tail Aux.deps = codes "deps"
aux_tail Aux.results = codes "results"
aux_tail Aux.cfail = codes "cfail"
aux_tail Aux.ccancel = codes "ccancel"
aux_tail Aux.live = codes "live"

unfoldable aux_named : List ℕ → Aux
unfolding same
aux_named t =
    if same t (codes "lock")
    then Aux.lock
    else if same t (codes "logs")
    then Aux.logs
    else if same t (codes "deps")
    then Aux.deps
    else if same t (codes "results")
    then Aux.results
    else if same t (codes "cfail")
    then Aux.cfail
    else if same t (codes "ccancel")
    then Aux.ccancel
    else Aux.live

aux_suffix-lem :
    (a : Aux)
    → (aux_suffix a ≡ b':' ∷ aux_tail a)
      × (among (aux_suffix a) job_suffixes ≡ true)
      × (count b':' (aux_tail a) ≡ 0)
      × (aux_named (aux_tail a) ≡ a)
unfolding aux_suffix aux_tail aux_named among same count
aux_suffix-lem Aux.lock = (refl, refl, refl, refl)
aux_suffix-lem Aux.logs = (refl, refl, refl, refl)
aux_suffix-lem Aux.deps = (refl, refl, refl, refl)
aux_suffix-lem Aux.results = (refl, refl, refl, refl)
aux_suffix-lem Aux.cfail = (refl, refl, refl, refl)
aux_suffix-lem Aux.ccancel = (refl, refl, refl, refl)
aux_suffix-lem Aux.live = (refl, refl, refl, refl)

cons-tail : {a b : ℕ} {s t : List ℕ} → a ∷ s ≡ b ∷ t → (a ≡ b) × (s ≡ t)
cons-tail h = (cc h, cc h)

colon_within : (n s m : List ℕ) → count b':' n ≡ 0 → n ≡ s ++ (b':' ∷ m) → ⊥
unfolding count
colon_within n s m plain e =
    ground (arith, plain, ap (count b':') e, count-append b':' s (b':' ∷ m))

-- Two texts that are the same are the same up to their last `:`, and behind it.
split_last :
    (p q n m : List ℕ)
    → count b':' n ≡ 0
    → count b':' m ≡ 0
    → p ++ (b':' ∷ n) ≡ q ++ (b':' ∷ m)
    → (p ≡ q) × (n ≡ m)
split_last [] [] n m hn hm e = (refl, (cons-tail e).1)
split_last [] (b ∷ q) n m hn hm e = absurd (colon_within n q m hn (cons-tail e).1)
split_last (a ∷ p) [] n m hn hm e = absurd (colon_within m p n hm (sym (cons-tail e).1))
split_last (a ∷ p) (b ∷ q) n m hn hm e =
    let (head, tail) = cons-tail e in
    let (front, back) = split_last p q n m hn hm tail in (cc (head, front), back)

aux-split :
    (job id : List ℕ) (a b : Aux) → job ++ aux_suffix a ≡ id ++ aux_suffix b → (job ≡ id) × (a ≡ b)
aux-split job id a b e =
    let (is, _, plain, named) = aux_suffix-lem a in
    let (is_too, _, plain_too, named_too) = aux_suffix-lem b in
    let (front, back) =
      split_last job id (aux_tail a) (aux_tail b) plain plain_too
        (ap (λ s. job ++ s) (sym is) ∙ e ∙ ap (λ s. id ++ s) is_too) in
    (front, sym named ∙ ap aux_named back ∙ named_too)

decimal-plain : (d : List ℕ) → all_digits is_decimal d ≡ true → count b':' d ≡ 0
unfolding all_digits count
decimal-plain [] h = refl
decimal-plain (c ∷ d) h = ground (arith, decimal-plain d (ground arith))

-- A text without a `:` is no job's key beside its hash.
plain-aux : (s id : List ℕ) (a : Aux) → count b':' s ≡ 0 → s ≡ id ++ aux_suffix a → ⊥
plain-aux s id a plain e =
    colon_within s id (aux_tail a) plain (e ∙ ap (λ x. id ++ x) (aux_suffix-lem a).0)

-- A job's id is no key of another job, nor of itself, beside the hash.
IsJobId-aux :
    (is_digit : ℕ → Bool) (job id : List ℕ) (a : Aux)
    → ((c : ℕ) → is_decimal c ≡ true → is_digit c ≡ true)
    → IsJobId is_digit job
    → job ≡ id ++ aux_suffix a
    → ⊥
IsJobId-aux is_digit job id a wider (IsJobId.custom ok) e =
    (custom_job_id-IsClear is_digit job job wider ok).1.others (aux_suffix a) id
      (aux_suffix-lem a).1 e
IsJobId-aux is_digit job id a wider (IsJobId.minted ok) e =
    plain-aux job id a (decimal-plain job ok) e

hash_apart :
    (is_digit : ℕ → Bool) (id : List ℕ)
    → ((c : ℕ) → is_decimal c ≡ true → is_digit c ≡ true)
    → IsJobId is_digit id
    → IsClear id
    → (k : QueueKey) → IsKey is_digit k
    → key_name k ≡ key_name (QueueKey.hash_of id)
    → k ≡ QueueKey.hash_of id
unfolding key_name IsKey
hash_apart is_digit id wider known clear (QueueKey.own_key k) ok e =
    absurd (clear.own (own_name k) (own_name-lem k).0 (sym e))
hash_apart is_digit id wider known clear (QueueKey.spaced space x) ok e =
    absurd (clear.spaced (space_prefix space) x (space_prefix-lem space) (sym e))
hash_apart is_digit id wider known clear (QueueKey.hash_of job) ok e = ap QueueKey.hash_of e
hash_apart is_digit id wider known clear (QueueKey.aux_of job a) ok e =
    absurd (IsJobId-aux is_digit id job a wider known (sym e))

aux_apart :
    (is_digit : ℕ → Bool) (id : List ℕ) (a : Aux)
    → ((c : ℕ) → is_decimal c ≡ true → is_digit c ≡ true)
    → IsClear id
    → (k : QueueKey) → IsKey is_digit k
    → key_name k ≡ key_name (QueueKey.aux_of id a)
    → k ≡ QueueKey.aux_of id a
unfolding key_name IsKey
aux_apart is_digit id a wider clear (QueueKey.own_key k) ok e =
    absurd (plain-aux (own_name k) id a (own_name-lem k).1 e)
aux_apart is_digit id a wider clear (QueueKey.spaced space x) ok e = absurd (
    clear.spaced_own (space_prefix space) x (aux_tail a) (space_prefix-lem space)
      (ap (λ s. id ++ s) (sym (aux_suffix-lem a).0) ∙ sym e))
aux_apart is_digit id a wider clear (QueueKey.hash_of job) ok e =
    absurd (IsJobId-aux is_digit job id a wider ok e)
aux_apart is_digit id a wider clear (QueueKey.aux_of job b) ok e =
    let (front, back) = aux-split job id b a e in
    ap (λ j. QueueKey.aux_of j b) front ∙ ap (λ x. QueueKey.aux_of id x) back

-- An id that is accepted is taken as it is, and its hash and each of its other keys is no other key of
-- the queue: none of the queue's own, none in a namespace, whatever follows, and none of a job with
-- another id that was accepted or minted. `is_digit` is Unicode's test of a digit, which takes the
-- decimal ones.
pub custom_job_id-IsFree :
    (is_digit : ℕ → Bool) (id out : List ℕ)
    → ((c : ℕ) → is_decimal c ≡ true → is_digit c ≡ true)
    → custom_job_id is_digit id ≡ some out
    → (out ≡ id)
      × ((k : QueueKey)
          → IsKey is_digit k
          → key_name k ≡ key_name (QueueKey.hash_of id)
          → k ≡ QueueKey.hash_of id)
      × ((k : QueueKey) (a : Aux)
          → IsKey is_digit k
          → key_name k ≡ key_name (QueueKey.aux_of id a)
          → k ≡ QueueKey.aux_of id a)
custom_job_id-IsFree is_digit id out wider h =
    let (is, clear) = custom_job_id-IsClear is_digit id out wider h in
    let known : IsJobId is_digit id = IsJobId.custom (h ∙ ap (λ x. some x) is) in
    (
      is,
      λ k ok e. hash_apart is_digit id wider known clear k ok e,
      λ k a ok e. aux_apart is_digit id a wider clear k ok e,
    )
