-- ===== src/Ranking.antt =====
-- Counted keys in falling order, as ingest_api/services.py takes them from a Counter, and from the
-- database by GROUP BY, ORDER BY the count and the key, and LIMIT.
pub mod Counted
pub mod Top
use Prim.Native.Nat.{Ordering}
use Prim.Native.String.{compare}
use unikernal_honeynet.Base.{
  ℕ, suc, ◌+◌, String, Bool, List, [], ◌∷◌, str_eq, leb, if◌then◌else◌, truthy, take,
}

-- `counter[target] += 1`, with the keys in the order of their first use.
unfoldable pub count_target : String → List (String × ℕ) → List (String × ℕ)
count_target target [] = (target, 1) ∷ []
count_target target ((key, n) ∷ rest) =
    if str_eq key target then (key, n + 1) ∷ rest else (key, n) ∷ count_target target rest

unfoldable pub counter_of : List String → List (String × ℕ) → List (String × ℕ)
unfolding count_target
counter_of [] counter = counter
counter_of (target ∷ rest) counter =
    counter_of rest (if truthy target then count_target target counter else counter)

-- An entry among entries in falling order, before those that are lower and after those that are equal
-- and came first.
unfoldable pub place : String × ℕ → List (String × ℕ) → List (String × ℕ)
place entry [] = entry ∷ []
place entry (other ∷ rest) =
    if leb other.1 entry.1 then entry ∷ other ∷ rest else other ∷ place entry rest

-- `counter.most_common()`: equal counts stay in the order of their first use.
unfoldable pub most_common : List (String × ℕ) → List (String × ℕ)
unfolding place
most_common [] = []
most_common (entry ∷ rest) = place entry (most_common rest)

-- A row of the key in groups that are in the order of their keys.
unfoldable pub tally : String → List (String × ℕ) → List (String × ℕ)
tally key [] = (key, 1) ∷ []
tally key ((other, n) ∷ rest) = elim (compare key other) [
  | Ordering.lt ↦ (key, 1) ∷ (other, n) ∷ rest
  | Ordering.eq ↦ (other, n + 1) ∷ rest
  | Ordering.gt ↦ (other, n) ∷ tally key rest
]

-- SELECT key, COUNT(id) ... GROUP BY key, in the order of the keys.
unfoldable pub group_counts : List String → List (String × ℕ)
unfolding tally
group_counts [] = []
group_counts (key ∷ rest) = tally key (group_counts rest)

-- ... ORDER BY COUNT(id) DESC, key ASC LIMIT n
unfoldable pub top_counts : ℕ → List String → List (String × ℕ)
unfolding group_counts most_common
top_counts n keys = take n (most_common (group_counts keys))
