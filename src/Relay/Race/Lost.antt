-- ===== src/Relay/Race/Lost.antt =====
-- A payload that is queued during a drain of edge_relay/app.py is lost.
use unikernal_honeynet.Base.{
  ℕ, ◌+◌, String, List, [], ◌∷◌, ◌++◌, ◌≡◌, refl, ap, ◌∙◌, arith, All, All-append,
}
use unikernal_honeynet.Relay.Spool.{IsLine}
use unikernal_honeynet.Relay.{
  Kind, events, heartbeats, Relay, Json, Payload, Response, replies_queued, channel, queue_payload,
  handle_ingest, replay_line, replay_lines, restore_spool,
}
use unikernal_honeynet.Relay.Lines.{waiting}
use unikernal_honeynet.Relay.Drain.{
  undelivered, replay_lines-undelivered, replay_lines-Replayed, restore_spool-Restored,
}
use unikernal_honeynet.Relay.Health.{handle_ingest_queued, with_error}
use unikernal_honeynet.Relay.Race.{
  idle, replaying, System, request, finish, Reach, here, next, Reach-replay_lines,
}
use unikernal_honeynet.Relay.Race.Bound.{Flight, IsBounded}

queued-restore_spool :
    (kind : Kind) (failed : List String) (r : Relay)
    → (channel kind (restore_spool kind failed r)).queued ≡ (channel kind r).queued
unfolding restore_spool
queued-restore_spool kind [] r = refl
queued-restore_spool events (x ∷ xs) r = refl
queued-restore_spool heartbeats (x ∷ xs) r = refl

queued-queue_payload :
    (n : ℕ) (kind : Kind) (line : String) (r : Relay) (e : String)
    → (channel kind (queue_payload n kind line (with_error r e))).queued
      ≡ (channel kind r).queued + 1
unfolding queue_payload
queued-queue_payload n events line r e = refl
queued-queue_payload n heartbeats line r e = refl

-- What is left of a drain from its loop on, where nothing comes between: `rest` are the lines still to
-- be sent, and `failed` those that failed.
abbrev pub rest_of_drain :
    Json → Kind → (ℕ → Response) → (rest failed : List String) → Relay → Relay
rest_of_drain json kind respond rest failed r =
    let (more, r') = replay_lines json kind respond 0 rest r in
    restore_spool kind (failed ++ more) r'

module _ (json : Json) (n : ℕ) (node : String) where
  queued-replay_line :
      (kind : Kind) (response : Response) (line : String) (r : Relay)
      → (channel kind (replay_line json kind response line r).1).queued ≡ (channel kind r).queued
  unfolding replay_line
  queued-replay_line events response line r = ground arith
  queued-replay_line heartbeats response line r = ground arith

  queued-replay_lines :
      (kind : Kind) (respond : ℕ → Response) (i : ℕ) (lines : List String) (r : Relay)
      → (channel kind (replay_lines json kind respond i lines r).1).queued ≡ (channel kind r).queued
  unfolding replay_lines
  queued-replay_lines kind respond i [] r = refl
  queued-replay_lines kind respond i (line ∷ rest) r =
      queued-replay_lines kind respond (i + 1) rest (replay_line json kind (respond i) line r).1
      ∙ queued-replay_line kind (respond i) line r

  queued_once :
      (kind : Kind) (payload : Payload json) (response : Response) (r : Relay)
      → (handle_ingest json n node kind payload response r).0 ≡ replies_queued
      → (channel kind (handle_ingest json n node kind payload response r).1).queued
        ≡ (channel kind r).queued + 1
  queued_once kind payload response r queued =
      let (e, after) = handle_ingest_queued json n node payload r kind response queued in
      rw after (queued-queue_payload n kind _ r e)

  -- A payload that is queued while a drain that has a failed line is in its loop is lost, if nothing
  -- else comes before the drain's end: the request is answered "queued" and is counted, and when the
  -- drain has ended, with the steps of the replay thread, the file holds the failed lines alone, those
  -- from before the request and those of the loop's rest that were not delivered after it.
  pub queued_then_lost :
      (kind : Kind) (payload : Payload json) (response : Response) (respond : ℕ → Response)
      (line : String) (rest failed : List String) (s : System)
      → s.phase ≡ replaying kind rest (line ∷ failed)
      → IsBounded n s
      → (handle_ingest json n node kind payload response s.relay).0 ≡ replies_queued
      → let queued = (handle_ingest json n node kind payload response s.relay).1 in
        let final = rest_of_drain json kind respond rest (line ∷ failed) queued in
        Reach json n node s (record { relay = final; phase = idle })
        × (waiting kind final ≡ line ∷ failed ++ undelivered json respond 0 rest)
        × ((channel kind final).queued ≡ (channel kind s.relay).queued + 1)
  queued_then_lost kind payload response respond line rest failed s in_loop h queued =
      let r = (handle_ingest json n node kind payload response s.relay).1 in
      let flight : Flight n (replaying kind rest (line ∷ failed)) = rw in_loop at h.flight in
      let more = (replay_lines json kind respond 0 rest r).0 in
      let end = (replay_lines json kind respond 0 rest r).1 in
      let lines : All IsLine (line ∷ failed ++ more) =
        All-append IsLine (line ∷ failed) more flight.1
          (replay_lines-Replayed json kind respond 0 rest r flight.0).3 in
      (
        next
            (Reach-replay_lines json n node kind respond 0 rest (line ∷ failed) r
              (next here (request kind payload response (rw in_loop refl))))
            (finish kind (line ∷ failed ++ more) refl refl),
        (restore_spool-Restored kind (line ∷ failed ++ more) end lines).0
            ∙ ap (λ xs. line ∷ failed ++ xs) (replay_lines-undelivered json kind respond 0 rest r),
        queued-restore_spool kind (line ∷ failed ++ more) end
            ∙ queued-replay_lines kind respond 0 rest r
            ∙ queued_once kind payload response s.relay queued,
      )
