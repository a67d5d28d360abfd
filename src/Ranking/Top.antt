-- ===== src/Ranking/Top.antt =====
-- The first of the counted keys that a query of ingest_api/services.py asks for.
use Prim.Native.Nat.{Ordering}
use Prim.Native.String.{compare}
use native.Mathlib.Decide.{dec_lt}
use unikernal_honeynet.Base.{
  ℕ, zero, suc, ◌≤◌, ◌<◌, min, String, false, List, [], ◌∷◌, ◌++◌, ◌≡◌, refl, ◌∙◌, sym, ap, subst,
  ◌⊎◌, inl, inr, arith, str_eq, eq_iff, leb, length, length-take, count_if, take, drop,
  take-append-drop, All, Bool-cases, compare_flip, compare_trans,
}
use unikernal_honeynet.Ranking.{place, most_common, tally, group_counts, top_counts}
use unikernal_honeynet.Ranking.Counted.{hits, hits-group_counts, hits-most_common}

-- A higher count comes first, and of equal counts the lower key.
abbrev pub Before : String × ℕ → String × ℕ → Type 0
Before a b = (b.1 < a.1) ⊎ ((b.1 ≡ a.1) × (compare a.0 b.0 ≡ Ordering.lt))

abbrev pub IsRanked : List (String × ℕ) → Type 0
IsRanked [] = Unit
IsRanked (entry ∷ rest) = All (Before entry) rest × IsRanked rest

-- The groups are in the order of their keys, each once.
abbrev AreKeys : List (String × ℕ) → Type 0
AreKeys [] = Unit
AreKeys (group ∷ rest) =
    All (λ (other : String × ℕ). compare group.0 other.0 ≡ Ordering.lt) rest × AreKeys rest

module _ (P : String × ℕ → Type 0) where
  All-map :
      (Q : String × ℕ → Type 0)
      → ((e : String × ℕ) → P e → Q e)
      → (xs : List (String × ℕ)) → All P xs
      → All Q xs
  All-map Q f [] h = tt
  All-map Q f (x ∷ xs) h = (f x h.0, All-map Q f xs h.1)

  All-place :
      (entry : String × ℕ) (xs : List (String × ℕ)) → P entry → All P xs → All P (place entry xs)
  unfolding place
  All-place entry [] p h = (p, tt)
  All-place entry (x ∷ xs) p h = elim (Bool-cases (leb x.1 entry.1)) [
    | inl e ↦ rw e (p, (h.0, h.1))
    | inr e ↦ rw e (h.0, All-place entry xs p h.1)
  ]

  All-most_common : (xs : List (String × ℕ)) → All P xs → All P (most_common xs)
  unfolding most_common
  All-most_common [] h = tt
  All-most_common (x ∷ xs) h = All-place x (most_common xs) h.0 (All-most_common xs h.1)

All-tally :
    (k key : String) (groups : List (String × ℕ))
    → All (λ (g : String × ℕ). compare k g.0 ≡ Ordering.lt) groups
    → compare k key ≡ Ordering.lt
    → All (λ (g : String × ℕ). compare k g.0 ≡ Ordering.lt) (tally key groups)
unfolding tally
All-tally k key [] h g = (g, tt)
All-tally k key (x ∷ xs) h g = ground (arith, h, All-tally k key xs h.1 g)

under_rest :
    (key other : String) (groups : List (String × ℕ))
    → compare key other ≡ Ordering.lt
    → All (λ (g : String × ℕ). compare other g.0 ≡ Ordering.lt) groups
    → All (λ (g : String × ℕ). compare key g.0 ≡ Ordering.lt) groups
under_rest key other groups h = All-map _ _ (λ g below. compare_trans key other g.0 h below) groups

tally-AreKeys :
    (key : String) (groups : List (String × ℕ)) → AreKeys groups → AreKeys (tally key groups)
unfolding tally
tally-AreKeys key [] h = (tt, tt)
tally-AreKeys key (x ∷ xs) h = ground (
  arith,
  h,
  under_rest key x.0 xs,
  compare_flip key x.0,
  All-tally x.0 key xs h.0,
  tally-AreKeys key xs h.1,
)

group_counts-AreKeys : (keys : List String) → AreKeys (group_counts keys)
unfolding group_counts
group_counts-AreKeys [] = tt
group_counts-AreKeys (key ∷ rest) =
    tally-AreKeys key (group_counts rest) (group_counts-AreKeys rest)

Before-le : (a b : String × ℕ) → compare a.0 b.0 ≡ Ordering.lt → b.1 ≤ a.1 → Before a b
Before-le a b h le = elim (dec_lt b.1 a.1) [ yes p ↦ inl p | no p ↦ inr (omega (arith, p, le), h) ]

-- What comes after an entry comes after one with a lower key and no lower count.
Before-rest :
    (a x : String × ℕ) (xs : List (String × ℕ))
    → x.1 ≤ a.1
    → All (λ (o : String × ℕ). compare a.0 o.0 ≡ Ordering.lt) xs
    → All (Before x) xs
    → All (Before a) xs
Before-rest a x [] le below h = tt
Before-rest a x (o ∷ xs) le below h =
    (Before-le a o below.0 (lower h.0), Before-rest a x xs le below.1 h.1)
  where
    lower : Before x o → o.1 ≤ a.1
    lower (inl p) = omega (arith, p, le)
    lower (inr p) = omega (arith, p.0, le)

place-IsRanked :
    (entry : String × ℕ) (xs : List (String × ℕ))
    → All (λ (o : String × ℕ). compare entry.0 o.0 ≡ Ordering.lt) xs
    → IsRanked xs
    → IsRanked (place entry xs)
unfolding place
place-IsRanked entry [] below h = (tt, tt)
place-IsRanked entry (x ∷ xs) below h = elim (Bool-cases (leb x.1 entry.1)) [
  | inl e ↦
      let le : x.1 ≤ entry.1 = ground (arith, e) in
      rw e (((Before-le entry x below.0 le, Before-rest entry x xs le below.1 h.0), h))
  | inr e ↦
      let first : Before x entry = inl (ground (arith, e)) in
      rw e (All-place (Before x) entry xs first h.0, place-IsRanked entry xs below.1 h.1)
]

most_common-IsRanked : (groups : List (String × ℕ)) → AreKeys groups → IsRanked (most_common groups)
unfolding most_common
most_common-IsRanked [] h = tt
most_common-IsRanked (x ∷ xs) h =
    place-IsRanked x (most_common xs)
      (All-most_common (λ (o : String × ℕ). compare x.0 o.0 ≡ Ordering.lt) xs h.0)
      (most_common-IsRanked xs h.1)

differ : (x y : String) → compare x y ≡ Ordering.lt → str_eq x y ≡ false
differ x y h = ground (arith, h)

hits-below :
    (key : String) (groups : List (String × ℕ))
    → All (λ (g : String × ℕ). compare key g.0 ≡ Ordering.lt) groups
    → hits key groups ≡ 0
hits-below key [] h = refl
hits-below key (g ∷ groups) h =
    ground (arith, h.0, eq_iff g.0 key, eq_iff key key, hits-below key groups h.1)

exact_after :
    (x : String × ℕ) (all xs : List (String × ℕ))
    → All (λ (g : String × ℕ). compare x.0 g.0 ≡ Ordering.lt) xs
    → All (λ (e : String × ℕ). hits e.0 all ≡ e.1) xs
    → All (λ (e : String × ℕ). hits e.0 (x ∷ all) ≡ e.1) xs
exact_after x all [] below h = tt
exact_after x all (e ∷ xs) below h =
    (ground (arith, differ x.0 e.0 below.0, h.0), exact_after x all xs below.1 h.1)

-- Each key has one group.
exact :
    (groups : List (String × ℕ))
    → AreKeys groups
    → All (λ (e : String × ℕ). hits e.0 groups ≡ e.1) groups
exact [] h = tt
exact (x ∷ xs) h =
    (ground (arith, hits-below x.0 xs h.0, eq_iff x.0 x.0), exact_after x xs xs h.0 (exact xs h.1))

All-take : (P : String × ℕ → Type 0) (n : ℕ) (xs : List (String × ℕ)) → All P xs → All P (take n xs)
All-take P zero xs h = tt
All-take P (suc n) [] h = tt
All-take P (suc n) (x ∷ xs) h = (h.0, All-take P n xs h.1)

-- The query answers the first of all keys, as many as its limit and the keys allow, where a higher
-- count comes before a lower one and the lower key before a higher one; each key comes with the
-- number of its rows.
pub top_counts_lem :
    (n : ℕ) (keys : List String)
    → let top = top_counts n keys in
      (rest : List (String × ℕ)) × IsRanked (top ++ rest)
      × (length top ≡ min n (length (top ++ rest)))
      × ((t : String) → hits t (top ++ rest) ≡ count_if (λ key. str_eq key t) keys)
      × All (λ (e : String × ℕ). e.1 ≡ count_if (λ key. str_eq key e.0) keys) top
unfolding top_counts
top_counts_lem n keys =
    let groups = group_counts keys in
    let ranked = most_common groups in
    let whole : take n ranked ++ drop n ranked ≡ ranked = take-append-drop n ranked in
    (
      drop n ranked,
      subst IsRanked (sym whole) (most_common-IsRanked groups (group_counts-AreKeys keys)),
      length-take n ranked ∙ ap (λ xs. min n (length xs)) (sym whole),
      λ t. ap (hits t) whole ∙ hits-most_common t groups ∙ hits-group_counts t keys,
      All-take _ n ranked (
          All-map (λ e. hits e.0 groups ≡ e.1) _ (λ e h. sym h ∙ hits-group_counts e.0 keys) ranked
            (All-most_common (λ e. hits e.0 groups ≡ e.1) groups
              (exact groups (group_counts-AreKeys keys)))),
    )
