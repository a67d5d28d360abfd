-- ===== src/Relay/Race.antt =====
-- The threads of edge_relay/app.py: requests are served while the replay thread is between the two
-- locked blocks of `drain_spool_once`.
pub mod Bound
pub mod Lost
use mathlib.Core.List.{append_assoc, append-nil}
use unikernal_honeynet.Base.{
  ℕ, ◌+◌, ◌≤◌, ◌<◌, String, Bool, true, false, List, [], ◌∷◌, ◌++◌, Option, none, some, ◌≡◌, refl,
  ap, sym, ◌∙◌, arith, length, length-append, All, All-append, if◌then◌else◌, leb, Bool-cases, ◌⊎◌,
  inl, inr,
}
use unikernal_honeynet.Relay.Spool.{IsLine, splitlines-unlines}
use unikernal_honeynet.Relay.{
  Kind, events, heartbeats, Relay, Json, Payload, IsCodec, Response, answers, url_error,
  timeout_error, other_error, trim_spool, Reply, Reply-discrete, replies_forwarded, replies_queued,
  raises, channel, queue_payload, completed, handle_ingest, take_spool, replay_line, replay_lines,
  restore_spool, replay_taken, drain_spool_once,
}
use unikernal_honeynet.Relay.Lines.{
  waiting, IsClean, trim_spool-All, waiting-queue_payload_any, queue_payload-IsClean,
  waiting-queue_payload, length-trim_spool,
}
use unikernal_honeynet.Relay.Drain.{Taken, take_spool-Taken, restore_spool-Restored}
use unikernal_honeynet.Relay.Health.{handle_ingest_kept, handle_ingest_queued, with_error}

-- Where the replay thread stands: outside a drain, or in the loop, with the lines still to be sent
-- and those that failed.
pub data Phase : Type 0 where
  idle : Phase
  replaying : Kind → (rest failed : List String) → Phase

pub record System : Type 0 where
  pub relay : Relay
  pub phase : Phase

-- One step of a thread. `n` is MAX_SPOOL_LINES and `node` the relay's EDGE_NODE_ID.
module _ (json : Json) (n : ℕ) (node : String) where
  pub data Step (s t : System) : Type 0 where
    request :
        (kind : Kind) (payload : Payload json) (response : Response)
        → t ≡ record s { relay = (handle_ingest json n node kind payload response s.relay).1 }
        → Step s t
    take :
        (kind : Kind) (lines : List String)
        → s.phase ≡ idle
        → (take_spool kind s.relay).0 ≡ some lines
        → t ≡ record { relay = (take_spool kind s.relay).1; phase = replaying kind lines [] }
        → Step s t
    send :
        (kind : Kind) (line : String) (rest failed : List String) (response : Response)
        → s.phase ≡ replaying kind (line ∷ rest) failed
        → t ≡ record {
          relay = (replay_line json kind response line s.relay).1;
          phase = replaying kind rest (
              if (replay_line json kind response line s.relay).0
              then failed
              else failed ++ line ∷ []);
        }
        → Step s t
    finish :
        (kind : Kind) (failed : List String)
        → s.phase ≡ replaying kind [] failed
        → t ≡ record { relay = restore_spool kind failed s.relay; phase = idle }
        → Step s t

  pub data Reach (s : System) : System → Type 0 where
    here : Reach s s
    next : {t u : System} → Reach s t → Step t u → Reach s u

  -- The loop of a drain that nothing interrupts, as steps.
  pub Reach-replay_lines :
      (kind : Kind) (respond : ℕ → Response) (i : ℕ) (lines failed : List String) {s : System}
      (r : Relay)
      → Reach s (record { relay = r; phase = replaying kind lines failed })
      → Reach s (record {
        relay = (replay_lines json kind respond i lines r).1;
        phase = replaying kind [] (failed ++ (replay_lines json kind respond i lines r).0);
      })
  unfolding replay_lines
  Reach-replay_lines kind respond i [] failed r p = rw append-nil p
  Reach-replay_lines kind respond i (line ∷ rest) failed r p =
      elim (Bool-cases (replay_line json kind (respond i) line r).0) [
        | inl e ↦ rw e (
            Reach-replay_lines kind respond (i + 1) rest failed _
              (next p (send kind line rest failed (respond i) refl (rw e refl))))
        | inr e ↦
            rw
              (
                e,
                ← append_assoc failed (line ∷ [])
                    (replay_lines json kind respond (i + 1) rest
                      (replay_line json kind (respond i) line r).1).0,
              )
              (Reach-replay_lines kind respond (i + 1) rest (failed ++ line ∷ []) _
                (next p (send kind line rest failed (respond i) refl (rw e refl))))
      ]

  Reach-replay_taken :
      (kind : Kind) (respond : ℕ → Response) (r : Relay) (o : Option (List String)) (s : Relay)
      → (take_spool kind r).0 ≡ o
      → (take_spool kind r).1 ≡ s
      → Taken kind r (o, s)
      → Reach
          (record { relay = r; phase = idle })
          (record { relay = replay_taken json kind respond o s; phase = idle })
  unfolding replay_taken
  Reach-replay_taken kind respond r none s e f (_, same) = rw same here
  Reach-replay_taken kind respond r (some lines) s e f t =
      next
        (Reach-replay_lines kind respond 0 lines [] s
          (next here (take kind lines refl e (rw f refl))))
        (finish kind _ refl refl)

  -- An uninterrupted `drain_spool_once` is a run of the replay thread's steps.
  pub drain-Reach :
      (kind : Kind) (respond : ℕ → Response) (r : Relay)
      → Reach
          (record { relay = r; phase = idle })
          (record { relay = drain_spool_once json kind respond r; phase = idle })
  unfolding drain_spool_once
  drain-Reach kind respond r =
      Reach-replay_taken kind respond r _ _ refl refl (take_spool-Taken kind r)
