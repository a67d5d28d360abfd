-- ===== src/Relay/Race/Bound.antt =====
-- What every interleaving of the threads of edge_relay/app.py keeps, and what one of them loses.
use unikernal_honeynet.Base.{
  ℕ, ◌+◌, ◌≤◌, ◌<◌, String, Bool, true, false, List, [], ◌∷◌, ◌++◌, some, ◌≡◌, refl, arith, length,
  length-append, All, All-append, if◌then◌else◌, ◌⊎◌, inl, inr,
}
use unikernal_honeynet.Relay.Spool.{IsLine, splitlines-unlines}
use unikernal_honeynet.Relay.{
  Kind, events, heartbeats, Relay, Json, Payload, IsCodec, Response, trim_spool, Reply-discrete,
  replies_queued, handle_ingest, take_spool, replay_line, restore_spool,
}
use unikernal_honeynet.Relay.Lines.{
  waiting, trim_spool-All, waiting-queue_payload_any, length-trim_spool,
}
use unikernal_honeynet.Relay.Health.{handle_ingest_kept, handle_ingest_queued, with_error}
use unikernal_honeynet.Relay.Race.{
  Phase, idle, replaying, System, Step, request, take, send, finish, Reach, here, next,
}

-- The lines taken are those that waited.
taken_lines :
    (kind : Kind) (r : Relay) {lines : List String}
    → (take_spool kind r).0 ≡ some lines
    → lines ≡ waiting kind r
unfolding take_spool
taken_lines events r h = ground arith
taken_lines heartbeats r h = ground arith

-- A spool that a reader finds in order, within the bound.
abbrev pub Fits : ℕ → List String → Type 0
Fits n lines = All IsLine lines × (length lines ≤ n)

abbrev pub Flight : ℕ → Phase → Type 0
Flight n idle = Unit {0}
Flight n (replaying kind rest failed) =
    All IsLine rest × All IsLine failed × (length rest + length failed ≤ n)

-- Every spool and the lines in flight are within the bound.
pub record IsBounded (n : ℕ) (s : System) : Type 0 where
  pub spools : (kind : Kind) → Fits n (waiting kind s.relay)
  pub flight : Flight n s.phase

with_error-Fits :
    (n : ℕ) (kind : Kind) (relay : Relay) (e : String)
    → Fits n (waiting kind relay)
    → Fits n (waiting kind (with_error relay e))
with_error-Fits n events relay e h = h
with_error-Fits n heartbeats relay e h = h

trim_spool-Fits :
    (n : ℕ) (xs : List String) (x : String)
    → 0 < n
    → All IsLine xs
    → IsLine x
    → Fits n (trim_spool n (xs ++ x ∷ []))
trim_spool-Fits n xs x pos h l =
    (trim_spool-All n _ (All-append IsLine xs _ h (l, tt)), length-trim_spool n _ pos)

waiting-take_spool :
    (kind other : Kind) (r : Relay)
    → (waiting other (take_spool kind r).1 ≡ waiting other r)
      ⊎ (waiting other (take_spool kind r).1 ≡ [])
unfolding take_spool
waiting-take_spool events events r = ground arith
waiting-take_spool events heartbeats r = ground arith
waiting-take_spool heartbeats events r = ground arith
waiting-take_spool heartbeats heartbeats r = ground arith

waiting-replay_line :
    (json : Json) (kind other : Kind) (response : Response) (line : String) (r : Relay)
    → waiting other (replay_line json kind response line r).1 ≡ waiting other r
unfolding replay_line
waiting-replay_line json events events response line r = ground arith
waiting-replay_line json events heartbeats response line r = ground arith
waiting-replay_line json heartbeats events response line r = ground arith
waiting-replay_line json heartbeats heartbeats response line r = ground arith

waiting-restore_spool :
    (kind other : Kind) (failed : List String) (r : Relay)
    → All IsLine failed
    → (waiting other (restore_spool kind failed r) ≡ waiting other r)
      ⊎ (waiting other (restore_spool kind failed r) ≡ failed)
unfolding restore_spool
waiting-restore_spool kind other [] r h = inl refl
waiting-restore_spool events events (x ∷ xs) r h = inr (splitlines-unlines (x ∷ xs) h)
waiting-restore_spool heartbeats heartbeats (x ∷ xs) r h = inr (splitlines-unlines (x ∷ xs) h)
waiting-restore_spool events heartbeats (x ∷ xs) r h = inl refl
waiting-restore_spool heartbeats events (x ∷ xs) r h = inl refl

-- Sent or not, the lines in flight stay within the bound.
Flight-send :
    (n : ℕ) (kind : Kind) (line : String) (rest failed : List String) (sent : Bool)
    → Flight n (replaying kind (line ∷ rest) failed)
    → Flight n (replaying kind rest (if sent then failed else failed ++ line ∷ []))
Flight-send n kind line rest failed true h = (h.0.1, h.1, omega arith)
Flight-send n kind line rest failed false h = (
  h.0.1,
  All-append IsLine failed _ h.1 (h.0.0, tt),
  omega (arith, length-append failed (line ∷ [])),
)

module _ (json : Json) (codec : IsCodec json) (n : ℕ) (pos : 0 < n) (node : String) where
  handle_ingest-Fits :
      (kind other : Kind) (payload : Payload json) (response : Response) (r : Relay)
      → ((k : Kind) → Fits n (waiting k r))
      → Fits n (waiting other (handle_ingest json n node kind payload response r).1)
  handle_ingest-Fits kind other payload response r fits =
      elim (Reply-discrete (handle_ingest json n node kind payload response r).0 replies_queued) [
        | no kept ↦
            rw (handle_ingest_kept json n node payload r kind other response kept) (fits other)
        | yes queued ↦
            let (e, after) = handle_ingest_queued json n node payload r kind response queued in
            rw after (
              waiting-queue_payload_any (Fits n) n kind other _ (with_error r e)
                (with_error-Fits n kind r e (fits kind)).0 (codec.dumps-IsLine _)
                (with_error-Fits n other r e (fits other))
                (trim_spool-Fits n _ _ pos (with_error-Fits n kind r e (fits kind)).0
                  (codec.dumps-IsLine _)))
      ]

  Step-IsBounded : {s t : System} → Step json n node s t → IsBounded n s → IsBounded n t
  Step-IsBounded {s} (request kind payload response e) h = rw e (record {
    spools = λ other. handle_ingest-Fits kind other payload response s.relay h.spools;
    flight = h.flight;
  })
  Step-IsBounded {s} (take kind lines at_idle took e) h = rw e (record {
    spools = λ other. elim (waiting-take_spool kind other s.relay) [
      | inl same ↦ rw same (h.spools other)
      | inr empty ↦ rw empty (tt, omega arith)
    ];
    flight =
        rw (taken_lines kind s.relay took)
          ((h.spools kind).0, tt, omega (arith, (h.spools kind).1));
  })
  Step-IsBounded {s} (send kind line rest failed response at_line e) h = rw e (record {
    spools =
        λ other. rw (waiting-replay_line json kind other response line s.relay) (h.spools other);
    flight =
        Flight-send n kind line rest failed (replay_line json kind response line s.relay).0
          (rw at_line at h.flight);
  })
  Step-IsBounded {s} (finish kind failed at_end e) h =
      let f : Flight n (replaying kind [] failed) = rw at_end at h.flight in
      rw e (record {
        spools = λ other. elim (waiting-restore_spool kind other failed s.relay f.1) [
          | inl same ↦ rw same (h.spools other)
          | inr back ↦ rw back (f.1, omega arith)
        ];
        flight = tt;
      })

  -- With a positive MAX_SPOOL_LINES and a codec that writes no line break: whatever the order in
  -- which requests and the replay thread's steps come, the spool of each kind stays within the
  -- bound and holds whole lines only, and so do the lines that a drain has in flight.
  pub Reach-IsBounded : {s t : System} → IsBounded n s → Reach json n node s t → IsBounded n t
  Reach-IsBounded h here = h
  Reach-IsBounded h (next r step) = Step-IsBounded step (Reach-IsBounded h r)
