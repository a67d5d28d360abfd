-- ===== src/Relay/Drain.antt =====
-- `drain_spool_once` of edge_relay/app.py, with no other call in between: every line that it takes
-- is either delivered or put back.
use unikernal_honeynet.Base.{
  ℕ, ◌+◌, String, Bool, true, false, List, [], ◌∷◌, Option, none, some, is_some, ◌&&◌, ltb, ◌≡◌,
  refl, ap, arith, length, All, if◌then◌else◌,
}
use unikernal_honeynet.Relay.Spool.{IsLine, splitlines-unlines}
use unikernal_honeynet.Relay.{
  Kind, events, heartbeats, Relay, Json, Response, answers, channel, replay_line, replay_lines,
  restore_spool, take_spool, drain_spool_once, replay_taken,
}
use unikernal_honeynet.Relay.Lines.{waiting, IsClean}

module _ (kind : Kind) where
  -- One line is counted as replayed or as failed, and the file is left alone.
  abbrev Settled : Relay → Bool × Relay → Type 0
  Settled r (sent, s) =
      ((channel kind s).spool ≡ (channel kind r).spool)
      × ((channel kind s).replayed
          ≡ (channel kind r).replayed + (elim sent [ true ↦ 1 | false ↦ 0 ]))
      × ((channel kind s).failed ≡ (channel kind r).failed + (elim sent [ true ↦ 0 | false ↦ 1 ]))

replay_line-Settled :
    (json : Json) (kind : Kind) (response : Response) (line : String) (r : Relay)
    → Settled kind r (replay_line json kind response line r)
unfolding replay_line
replay_line-Settled json events response line r = ground arith
replay_line-Settled json heartbeats response line r = ground arith

module _ (json : Json) (kind : Kind) (respond : ℕ → Response) where
  abbrev pub Replayed : List String → Relay → List String × Relay → Type 0
  Replayed lines r (failed, s) =
      ((channel kind s).spool ≡ (channel kind r).spool)
      × (length failed + (channel kind s).replayed ≡ length lines + (channel kind r).replayed)
      × ((channel kind s).failed ≡ (channel kind r).failed + length failed)
      × All IsLine failed

  pub replay_lines-Replayed :
      (i : ℕ) (lines : List String) (r : Relay)
      → All IsLine lines
      → Replayed lines r (replay_lines json kind respond i lines r)
  unfolding replay_lines
  replay_lines-Replayed i [] r h = ground arith
  replay_lines-Replayed i (line ∷ rest) r h = ground (
    arith,
    replay_line-Settled json kind (respond i) line r,
    replay_lines-Replayed (i + 1) rest (replay_line json kind (respond i) line r).1 h.1,
  )

-- What `restore_spool` leaves in the file, and what it leaves alone.
abbrev Restored : Kind → List String → Relay → Relay → Type 0
Restored kind failed r s =
    (waiting kind s ≡ elim failed [ [] ↦ waiting kind r | x ∷ xs ↦ x ∷ xs ])
    × ((channel kind s).replayed ≡ (channel kind r).replayed)
    × ((channel kind s).failed ≡ (channel kind r).failed)

pub restore_spool-Restored :
    (kind : Kind) (failed : List String) (r : Relay)
    → All IsLine failed
    → Restored kind failed r (restore_spool kind failed r)
unfolding restore_spool
restore_spool-Restored events [] r h = (refl, refl, refl)
restore_spool-Restored heartbeats [] r h = (refl, refl, refl)
restore_spool-Restored events (x ∷ xs) r h = (splitlines-unlines (x ∷ xs) h, refl, refl)
restore_spool-Restored heartbeats (x ∷ xs) r h = (splitlines-unlines (x ∷ xs) h, refl, refl)

-- What `take_spool` returns: nothing where nothing waits, or else the waiting lines, and the file
-- is empty.
abbrev pub Taken : Kind → Relay → Option (List String) × Relay → Type 0
Taken kind r (none, s) = (waiting kind r ≡ []) × (s ≡ r)
Taken kind r (some lines, s) =
    (lines ≡ waiting kind r)
    × (waiting kind s ≡ [])
    × ((channel kind s).replayed ≡ (channel kind r).replayed)
    × ((channel kind s).failed ≡ (channel kind r).failed)

pub take_spool-Taken : (kind : Kind) (r : Relay) → Taken kind r (take_spool kind r)
unfolding take_spool
take_spool-Taken events r = ground arith
take_spool-Taken heartbeats r = ground arith

-- The upstream takes the payload.
abbrev pub accepts : Response → Bool
accepts (answers status) = ltb status 400
accepts _ = false

replay_line-accepts :
    (json : Json) (kind : Kind) (response : Response) (line : String) (r : Relay)
    → (replay_line json kind response line r).0 ≡ (is_some (json.loads line) && accepts response)
unfolding replay_line
replay_line-accepts json kind response line r = ground arith

-- The lines that are not delivered, in their order, where the upstream answers the i-th by `respond i`:
-- those that are no document, and those whose document it does not take.
abbrev pub undelivered : Json → (ℕ → Response) → ℕ → List String → List String
undelivered json respond i [] = []
undelivered json respond i (line ∷ rest) =
    let failed = undelivered json respond (i + 1) rest in
    if is_some (json.loads line) && accepts (respond i) then failed else line ∷ failed

module _ (json : Json) (kind : Kind) (respond : ℕ → Response) where
  pub replay_lines-undelivered :
      (i : ℕ) (lines : List String) (r : Relay)
      → (replay_lines json kind respond i lines r).0 ≡ undelivered json respond i lines
  unfolding replay_lines
  replay_lines-undelivered i [] r = refl
  replay_lines-undelivered i (line ∷ rest) r = ground (
    arith,
    replay_line-accepts json kind (respond i) line r,
    replay_lines-undelivered (i + 1) rest (replay_line json kind (respond i) line r).1,
  )

  replay_lines-All :
      (i : ℕ) (lines : List String) (r : Relay)
      → ((k : ℕ) → accepts (respond k) ≡ true)
      → All (λ line. is_some (json.loads line) ≡ true) lines
      → (replay_lines json kind respond i lines r).0 ≡ []
  unfolding replay_lines
  replay_lines-All i [] r up docs = refl
  replay_lines-All i (line ∷ rest) r up docs = ground (
    arith,
    up i,
    replay_line-accepts json kind (respond i) line r,
    replay_lines-All (i + 1) rest (replay_line json kind (respond i) line r).1 up docs.1,
  )

  replay_lines_none :
      (i : ℕ) (lines : List String) (r : Relay)
      → ((k : ℕ) → accepts (respond k) ≡ false)
      → (replay_lines json kind respond i lines r).0 ≡ lines
  unfolding replay_lines
  replay_lines_none i [] r down = refl
  replay_lines_none i (line ∷ rest) r down = ground (
    arith,
    down i,
    replay_line-accepts json kind (respond i) line r,
    replay_lines_none (i + 1) rest (replay_line json kind (respond i) line r).1 down,
  )

  abbrev pub Conserved : Relay → Relay → Type 0
  Conserved relay after =
      (length (waiting kind after) + (channel kind after).replayed
        ≡ length (waiting kind relay) + (channel kind relay).replayed)
      × ((channel kind after).failed ≡ (channel kind relay).failed + length (waiting kind after))

  replay_taken-Conserved :
      (relay : Relay) (o : Option (List String)) (s : Relay)
      → IsClean kind relay
      → Taken kind relay (o, s)
      → Conserved relay (replay_taken json kind respond o s)
  unfolding replay_taken
  replay_taken-Conserved relay none s clean (e, same) = rw same (ground arith)
  replay_taken-Conserved relay (some lines) s clean t =
      let (failed, s') = replay_lines json kind respond 0 lines s in
      ground (
        arith,
        replay_lines-Replayed json kind respond 0 lines s (rw t.0 clean),
        restore_spool-Restored kind failed s'
            (replay_lines-Replayed json kind respond 0 lines s (rw t.0 clean)).3,
      )

-- What waits after the replay of what was taken is what the loop returned.
waiting-replay_taken :
    (json : Json) (kind : Kind) (respond : ℕ → Response) (relay : Relay) (o : Option (List String))
    (s : Relay) (left : List String)
    → IsClean kind relay
    → Taken kind relay (o, s)
    → (replay_lines json kind respond 0 (waiting kind relay) s).0 ≡ left
    → waiting kind (replay_taken json kind respond o s) ≡ left
unfolding replay_taken
waiting-replay_taken json kind respond relay none s left clean (e, same) h =
    unfold replay_lines in rw (same, e) (ground (arith, e))
waiting-replay_taken json kind respond relay (some lines) s left clean t h =
    let (failed, s') = replay_lines json kind respond 0 lines s in
    ground (
      arith,
      replay_lines-Replayed json kind respond 0 lines s (rw t.0 clean),
      restore_spool-Restored kind failed s'
          (replay_lines-Replayed json kind respond 0 lines s (rw t.0 clean)).3,
    )

module _ (json : Json) (kind : Kind) (respond : ℕ → Response) (relay : Relay)
    (clean : IsClean kind relay) where
  drain_counts : Conserved json kind respond relay (drain_spool_once json kind respond relay)
  unfolding drain_spool_once
  drain_counts =
      replay_taken-Conserved json kind respond relay (take_spool kind relay).0
        (take_spool kind relay).1 clean (take_spool-Taken kind relay)

  waiting-drain :
      (left : List String)
      → (replay_lines json kind respond 0 (waiting kind relay) (take_spool kind relay).1).0 ≡ left
      → waiting kind (drain_spool_once json kind respond relay) ≡ left
  unfolding drain_spool_once
  waiting-drain left =
      waiting-replay_taken json kind respond relay (take_spool kind relay).0
        (take_spool kind relay).1 left clean (take_spool-Taken kind relay)

  -- If each waiting document is one line, a drain loses no line and makes none up: the lines that wait
  -- again are those that waited and were not delivered, as they were and in their order, and are
  -- counted as failed, and the other lines that waited are counted as replayed.
  pub drain_conserves :
      let after = drain_spool_once json kind respond relay in
      (waiting kind after ≡ undelivered json respond 0 (waiting kind relay))
      × (length (waiting kind after) + (channel kind after).replayed
          ≡ length (waiting kind relay) + (channel kind relay).replayed)
      × ((channel kind after).failed ≡ (channel kind relay).failed + length (waiting kind after))
  drain_conserves = (
    waiting-drain _ (replay_lines-undelivered json kind respond 0 (waiting kind relay) _),
    drain_counts.0,
    drain_counts.1,
  )

  -- With an upstream that takes every payload and documents that can be read and are one line each,
  -- a drain empties the file and counts every line as replayed.
  pub drain_recovers :
      ((i : ℕ) → accepts (respond i) ≡ true)
      → All (λ line. is_some (json.loads line) ≡ true) (waiting kind relay)
      → let after = drain_spool_once json kind respond relay in
        (waiting kind after ≡ [])
        × ((channel kind after).replayed
            ≡ length (waiting kind relay) + (channel kind relay).replayed)
  drain_recovers up docs =
      let e =
        waiting-drain [] (replay_lines-All json kind respond 0 (waiting kind relay) _ up docs) in
      (e, omega (arith, drain_counts, ap length e))

  -- While the upstream takes nothing, a drain leaves the file's lines, if each document is one line,
  -- as they were, in their order, and counts none as replayed.
  pub drain_outage :
      ((i : ℕ) → accepts (respond i) ≡ false)
      → let after = drain_spool_once json kind respond relay in
        (waiting kind after ≡ waiting kind relay)
        × ((channel kind after).replayed ≡ (channel kind relay).replayed)
  drain_outage down =
      let e =
        waiting-drain (waiting kind relay)
          (replay_lines_none json kind respond 0 (waiting kind relay) _ down) in
      (e, omega (arith, drain_counts, ap length e))
