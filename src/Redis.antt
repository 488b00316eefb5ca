-- ===== src/Redis.antt =====
-- What the scripts ask of Redis itself: sorted sets and their documented behaviour, and Lua's
-- floating logarithm. Members and whole scores are numbers. Which of two members with one score
-- comes first is left open.
pub mod Backed
use toro.Prelude.{
  ℕ, ◌≤◌, ◌≡◌, Option, none, some, Bool, true, false, List, [], ◌∷◌, ◌==◌, if◌then◌else◌,
}

-- Looks a member up in a listing.
unfoldable pub lookup : ℕ → List (ℕ × ℕ) → Option ℕ
lookup n [] = none
lookup n ((m, s) ∷ rest) = if m == n then some s else lookup n rest

-- Every score of the listing is at least `s`.
abbrev pub AllAbove : ℕ → List (ℕ × ℕ) → Type 0
AllAbove s [] = Unit {0}
AllAbove s ((m, t) ∷ rest) = (s ≤ t) × AllAbove s rest

-- A listing in the order of its scores, each member once.
abbrev pub IsListing : List (ℕ × ℕ) → Type 0
IsListing [] = Unit {0}
IsListing ((m, s) ∷ rest) = AllAbove s rest × (lookup m rest ≡ none) × IsListing rest

-- The entries of a listing that a test keeps.
unfoldable pub entries_where : (ℕ → Bool) → List (ℕ × ℕ) → List (ℕ × ℕ)
entries_where keep [] = []
entries_where keep ((m, s) ∷ rest) =
    let r = entries_where keep rest in if keep m then (m, s) ∷ r else r

abbrev pub missing : Option ℕ → Bool
missing none = true
missing (some s) = false

pub record Redis : Type 1 where
  pub ZSet : Type 0
  pub empty : ZSet
  -- ZADD key score member
  pub zadd : ZSet → ℕ → ℕ → ZSet
  -- ZREM key member
  pub zrem : ZSet → ℕ → ZSet
  -- ZSCORE key member
  pub zscore : ZSet → ℕ → Option ℕ
  -- ZRANGE key 0 -1 WITHSCORES, as pairs of a member and its score
  pub zrange : ZSet → List (ℕ × ℕ)
  -- ZDIFFSTORE to 2 a b, which keeps the scores of the first
  pub zdiff : ZSet → ZSet → ZSet
  -- math.floor(math.log(durMs / 20) / math.log(1.5)), in doubles
  pub log_ratio : ℕ → ℕ
  pub zscore-empty : (n : ℕ) → zscore empty n ≡ none
  pub zscore-zadd :
      (z : ZSet) (s m n : ℕ) → zscore (zadd z s m) n ≡ (if m == n then some s else zscore z n)
  pub zscore-zrem :
      (z : ZSet) (m n : ℕ) → zscore (zrem z m) n ≡ (if m == n then none else zscore z n)
  pub lookup-zrange : (z : ZSet) (n : ℕ) → lookup n (zrange z) ≡ zscore z n
  pub zrange-IsListing : (z : ZSet) → IsListing (zrange z)
  -- The order of a sorted set is by score and then by member: what is left of it keeps it.
  pub zrange-zdiff :
      (y z : ZSet) → zrange (zdiff y z) ≡ entries_where (λ m. missing (zscore z m)) (zrange y)
