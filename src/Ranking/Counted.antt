-- ===== src/Ranking/Counted.antt =====
-- The counts that a Counter or a GROUP BY gives, and their order.
use text.Mathlib.TextEquality.{path_by_compare}
use unikernal_honeynet.Base.{
  ℕ, ◌+◌, ◌≤◌, String, ◌&&◌, List, [], ◌∷◌, ◌≡◌, refl, arith, str_eq, eq_iff, if◌then◌else◌, truthy,
  count_if,
}
use unikernal_honeynet.Ranking.{count_target, counter_of, place, most_common, tally, group_counts}

-- What a list of counted keys has for one of them.
abbrev pub hits : String → List (String × ℕ) → ℕ
hits target [] = 0
hits target (entry ∷ rest) = (if str_eq entry.0 target then entry.1 else 0) + hits target rest

-- No entry has a higher count than one before it.
abbrev pub IsFalling : List (String × ℕ) → Type 0
IsFalling [] = Unit
IsFalling (entry ∷ []) = Unit
IsFalling (entry ∷ other ∷ rest) = (other.1 ≤ entry.1) × IsFalling (other ∷ rest)

hits-count_target :
    (t target : String) (counter : List (String × ℕ))
    → hits t (count_target target counter) ≡ hits t counter + (if str_eq target t then 1 else 0)
unfolding count_target
hits-count_target t target [] = ground arith
hits-count_target t target (entry ∷ rest) = ground (
  arith,
  hits-count_target t target rest,
  eq_iff entry.0 target,
  eq_iff entry.0 t,
  eq_iff target t,
)

pub hits-counter_of :
    (t : String) (targets : List String) (counter : List (String × ℕ))
    → hits t (counter_of targets counter)
      ≡ hits t counter + count_if (λ target. truthy target && str_eq target t) targets
unfolding counter_of
hits-counter_of t [] counter = omega arith
hits-counter_of t (target ∷ rest) counter = ground (
  arith,
  hits-counter_of t rest counter,
  hits-counter_of t rest (count_target target counter),
  hits-count_target t target counter,
)

hits-place :
    (t : String) (entry : String × ℕ) (rest : List (String × ℕ))
    → hits t (place entry rest) ≡ hits t (entry ∷ rest)
unfolding place
hits-place t entry [] = refl
hits-place t entry (other ∷ rest) = ground (arith, hits-place t entry rest)

pub hits-most_common :
    (t : String) (counter : List (String × ℕ)) → hits t (most_common counter) ≡ hits t counter
unfolding most_common
hits-most_common t [] = refl
hits-most_common t (entry ∷ rest) =
    omega (arith, hits-place t entry (most_common rest), hits-most_common t rest)

place-IsFalling :
    (entry : String × ℕ) (rest : List (String × ℕ)) → IsFalling rest → IsFalling (place entry rest)
unfolding place
place-IsFalling entry [] h = tt
place-IsFalling entry (other ∷ []) h = ground (arith, h)
place-IsFalling entry (other ∷ next ∷ rest) h =
    ground (arith, h, place-IsFalling entry (next ∷ rest))

pub most_common-IsFalling : (counter : List (String × ℕ)) → IsFalling (most_common counter)
unfolding most_common
most_common-IsFalling [] = tt
most_common-IsFalling (entry ∷ rest) =
    place-IsFalling entry (most_common rest) (most_common-IsFalling rest)

hits-tally :
    (t key : String) (groups : List (String × ℕ))
    → hits t (tally key groups) ≡ hits t groups + (if str_eq key t then 1 else 0)
unfolding tally
hits-tally t key [] = ground arith
hits-tally t key (group ∷ rest) =
    ground
      (arith, hits-tally t key rest, path_by_compare key group.0, eq_iff group.0 t, eq_iff key t)

pub hits-group_counts :
    (t : String) (keys : List String)
    → hits t (group_counts keys) ≡ count_if (λ key. str_eq key t) keys
unfolding group_counts
hits-group_counts t [] = refl
hits-group_counts t (key ∷ rest) =
    omega (arith, hits-tally t key (group_counts rest), hits-group_counts t rest)
