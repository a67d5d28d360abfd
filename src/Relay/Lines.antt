-- ===== src/Relay/Lines.antt =====
-- The lines that a spool file of edge_relay/app.py holds, as its readers see them.
use unikernal_honeynet.Base.{
  ℕ, ◌≤◌, ◌<◌, ◌-◌, String, List, [], ◌∷◌, ◌++◌, ◌≡◌, refl, All, All-append, All-drop, arith,
  length, length-drop, take, take-append-drop, get_last?, get_last?-drop, inl, inr, Bool-cases, ltb,
  ◌==◌,
}
use unikernal_honeynet.Relay.Spool.{IsLine, splitlines-unlines}
use unikernal_honeynet.Relay.{
  Kind, events, heartbeats, Relay, channel, spool_lines, trim_spool, queue_payload,
}

-- The documents that wait in one kind's spool.
abbrev pub waiting : Kind → Relay → List String
waiting kind relay = spool_lines (channel kind relay).spool

-- Each waiting document is one line.
abbrev pub IsClean : Kind → Relay → Type 0
IsClean kind relay = All IsLine (waiting kind relay)

pub trim_suffix :
    (n : ℕ) (xs : List String) → (dropped : List String) × (dropped ++ trim_spool n xs ≡ xs)
unfolding trim_spool
trim_suffix n xs = elim (Bool-cases (ltb n (length xs))) [
  | inr e ↦ rw e ([], refl)
  | inl e ↦ rw e (elim (Bool-cases (n == 0)) [
    | inl z ↦ rw z ([], refl)
    | inr z ↦ rw z (take (length xs - n) xs, take-append-drop (length xs - n) xs)
  ])
]

pub length-trim_spool : (n : ℕ) (xs : List String) → 0 < n → length (trim_spool n xs) ≤ n
unfolding trim_spool
length-trim_spool n xs h = ground (arith, length-drop (length xs - n) xs)

pub trim_spool-All : (n : ℕ) (xs : List String) → All IsLine xs → All IsLine (trim_spool n xs)
unfolding trim_spool
trim_spool-All n xs h = elim (Bool-cases (ltb n (length xs))) [
  | inr e ↦ rw e h
  | inl e ↦ rw e (elim (Bool-cases (n == 0)) [
    | inl z ↦ rw z h
    | inr z ↦ rw z (All-drop IsLine (length xs - n) xs h)
  ])
]

pub get_last?-trim_spool : (n : ℕ) (xs : List String) → get_last? (trim_spool n xs) ≡ get_last? xs
unfolding trim_spool
get_last?-trim_spool n xs = ground (arith, get_last?-drop (length xs - n) xs)

-- What a reader finds after a call is what the call kept.
pub waiting-queue_payload :
    (n : ℕ) (kind : Kind) (line : String) (relay : Relay)
    → IsClean kind relay
    → IsLine line
    → waiting kind (queue_payload n kind line relay)
      ≡ trim_spool n (waiting kind relay ++ line ∷ [])
unfolding queue_payload
waiting-queue_payload n events line relay h l =
    splitlines-unlines _ (trim_spool-All n _ (All-append IsLine _ _ h (l, tt)))
waiting-queue_payload n heartbeats line relay h l =
    splitlines-unlines _ (trim_spool-All n _ (All-append IsLine _ _ h (l, tt)))

pub queue_payload-IsClean :
    (n : ℕ) (kind : Kind) (line : String) (relay : Relay)
    → IsClean kind relay
    → IsLine line
    → IsClean kind (queue_payload n kind line relay)
queue_payload-IsClean n kind line relay h l =
    rw (waiting-queue_payload n kind line relay h l)
      (trim_spool-All n _ (All-append IsLine _ _ h (l, tt)))

-- What holds of every spool before a call, and of the one that the call shortens, holds after it.
pub waiting-queue_payload_any {ℓ} :
    (P : List String → Type ℓ) (n : ℕ) (kind other : Kind) (line : String) (relay : Relay)
    → IsClean kind relay
    → IsLine line
    → P (waiting other relay)
    → P (trim_spool n (waiting kind relay ++ line ∷ []))
    → P (waiting other (queue_payload n kind line relay))
waiting-queue_payload_any P n events events line relay c l h q =
    rw (waiting-queue_payload n events line relay c l) q
waiting-queue_payload_any P n heartbeats heartbeats line relay c l h q =
    rw (waiting-queue_payload n heartbeats line relay c l) q
waiting-queue_payload_any P n events heartbeats line relay c l h q = unfold queue_payload in h
waiting-queue_payload_any P n heartbeats events line relay c l h q = unfold queue_payload in h
