-- ===== src/Relay/Tests.antt =====
-- Runs of the relay of edge_relay/app.py, and its theorems at concrete inputs.
use unikernal_honeynet.Base.{
  str, ℕ, ◌+◌, ◌≤◌, String, true, List, [], ◌∷◌, ◌++◌, some, none, is_some, ◌≡◌, ◌↔◌, refl, arith,
  length, All, ◌<>◌, join, get_last?,
}
use unikernal_honeynet.Relay.Spool.{splitlines, unlines, splitlines-unlines}
use unikernal_honeynet.Relay.{
  events, heartbeats, Channel, Relay, Payload, Response, answers, url_error, channel,
  forward_payload, queue_payload, drain_spool_once, handle_ingest, completed, health,
  replies_forwarded, replies_queued,
}
use unikernal_honeynet.Relay.Codec.{plain_json, plain_json-IsCodec}
use unikernal_honeynet.Relay.Lines.{waiting, IsClean}
use unikernal_honeynet.Relay.Queue.{queue_payload_bounded}
use unikernal_honeynet.Relay.Drain.{
  accepts, undelivered, drain_conserves, drain_recovers, drain_outage,
}
use unikernal_honeynet.Relay.Health.{Request, serve, handle_ingest_lem, outage_unseen}
use unikernal_honeynet.Relay.Race.{System, Reach, idle, replaying, drain-Reach}
use unikernal_honeynet.Relay.Race.Bound.{Fits, IsBounded, Reach-IsBounded}
use unikernal_honeynet.Relay.Race.Lost.{rest_of_drain, queued_then_lost}

abbrev channel_with : Channel
channel_with = record { spool = some "a\nb\n"; forwarded = 0; queued = 2; replayed = 0; failed = 0 }

abbrev empty_channel : Channel
empty_channel = record { spool = none; forwarded = 0; queued = 0; replayed = 0; failed = 0 }

-- Two documents wait.
abbrev busy : Relay
busy = record { events = channel_with; heartbeats = empty_channel; last_upstream_error = "" }

abbrev down : ℕ → Response
down i = url_error

abbrev up : ℕ → Response
up i = answers 200

abbrev login : Payload plain_json
login = ("path", "/login") ∷ []

busy-IsClean : IsClean events busy
unfolding splitlines
busy-IsClean = ((refl, tt), ((refl, tt), tt))

-- A full queue drops its oldest line.
drops_oldest : (queue_payload 2 events "c" busy).events.spool ≡ some "b\nc\n"
unfolding queue_payload ◌<>◌ join
drops_oldest = refl

status_text : (forward_payload (answers 503) "").1 ≡ "upstream returned 503"
unfolding forward_payload str ◌<>◌
status_text = refl

splits_crlf : splitlines "a\r\nb\n\nc" ≡ "a" ∷ "b" ∷ "" ∷ "c" ∷ []
unfolding splitlines
splits_crlf = refl

splitlines-unlines_example : splitlines (unlines ("a" ∷ "b" ∷ [])) ≡ "a" ∷ "b" ∷ []
splitlines-unlines_example = splitlines-unlines ("a" ∷ "b" ∷ []) ((refl, tt), ((refl, tt), tt))

queue_payload_bounded_example :
    (length (waiting events (queue_payload 2 events "c" busy)) ≤ 2)
    × (get_last? (waiting events (queue_payload 2 events "c" busy)) ≡ some "c")
    × ((dropped : List String) × (dropped ++ waiting events (queue_payload 2 events "c" busy)
          ≡ waiting events busy ++ "c" ∷ []))
queue_payload_bounded_example =
    queue_payload_bounded 2 events "c" busy busy-IsClean (refl, tt) (omega arith)

drain_conserves_example :
    (waiting events (drain_spool_once plain_json events down busy)
      ≡ undelivered plain_json down 0 (waiting events busy))
    × (length (waiting events (drain_spool_once plain_json events down busy))
          + (channel events (drain_spool_once plain_json events down busy)).replayed
        ≡ length (waiting events busy) + (channel events busy).replayed)
    × ((channel events (drain_spool_once plain_json events down busy)).failed
        ≡ (channel events busy).failed
          + length (waiting events (drain_spool_once plain_json events down busy)))
drain_conserves_example = drain_conserves plain_json events down busy busy-IsClean

documents_read : All (λ line. is_some (plain_json.loads line) ≡ true) (waiting events busy)
unfolding splitlines
documents_read = (refl, (refl, tt))

drain_recovers_example :
    (waiting events (drain_spool_once plain_json events up busy) ≡ [])
    × ((channel events (drain_spool_once plain_json events up busy)).replayed
        ≡ length (waiting events busy) + (channel events busy).replayed)
drain_recovers_example =
    drain_recovers plain_json events up busy busy-IsClean (λ i. refl) documents_read

drain_outage_example :
    (waiting events (drain_spool_once plain_json events down busy) ≡ waiting events busy)
    × ((channel events (drain_spool_once plain_json events down busy)).replayed
        ≡ (channel events busy).replayed)
drain_outage_example = drain_outage plain_json events down busy busy-IsClean (λ i. refl)

handle_ingest_lem_example :
    let (reply, after) = handle_ingest plain_json 5 "edge-1" events login url_error busy in
    ((reply ≡ replies_forwarded) ↔ (accepts url_error ≡ true))
    × (reply ≡ replies_forwarded → waiting events after ≡ waiting events busy)
    × (reply ≡ replies_queued
        → (line : String) × (get_last? (waiting events after) ≡ some line)
          × (plain_json.loads line ≡ some (completed plain_json "edge-1" login)))
handle_ingest_lem_example =
    handle_ingest_lem plain_json plain_json-IsCodec 5 "edge-1" events login url_error busy
      busy-IsClean

abbrev outage : List (Request plain_json)
outage = (events, login, url_error) ∷ (events, login, url_error) ∷ []

outage_unseen_example :
    (health (serve plain_json 5 "edge-1" outage busy)).relay_health ≡ (health busy).relay_health
outage_unseen_example = outage_unseen plain_json 5 "edge-1" outage busy (tt, (tt, tt))

drain_reached :
    Reach plain_json 5 "edge-1"
      (record { relay = busy; phase = idle })
      (record { relay = drain_spool_once plain_json events down busy; phase = idle })
drain_reached = drain-Reach plain_json 5 "edge-1" events down busy

busy-IsBounded : IsBounded 5 (record { relay = busy; phase = idle })
unfolding splitlines
busy-IsBounded = record {
  spools = λ kind. elim kind as (λ k. Fits 5 (waiting k busy)) [
    | events ↦ (((refl, tt), ((refl, tt), tt)), omega arith)
    | heartbeats ↦ (tt, omega arith)
  ];
  flight = tt;
}

Reach-IsBounded_example :
    IsBounded 5 (record { relay = drain_spool_once plain_json events down busy; phase = idle })
Reach-IsBounded_example =
    Reach-IsBounded plain_json plain_json-IsCodec 5 (omega arith) "edge-1" busy-IsBounded
      drain_reached

-- A drain of two lines whose first failed.
abbrev draining : System
draining = record {
  relay = record { events = empty_channel; heartbeats = empty_channel; last_upstream_error = "" };
  phase = replaying events ("b" ∷ []) ("a" ∷ []);
}

draining-IsBounded : IsBounded 5 draining
draining-IsBounded = record {
  spools = λ kind. elim kind as (λ k. Fits 5 (waiting k draining.relay)) [
    | events ↦ (tt, omega arith)
    | heartbeats ↦ (tt, omega arith)
  ];
  flight = (((refl, tt), tt), ((refl, tt), tt), omega arith);
}

outage_queues :
    (handle_ingest plain_json 5 "edge-1" events login url_error draining.relay).0 ≡ replies_queued
unfolding handle_ingest
outage_queues = refl

queued_then_lost_example :
    let queued = (handle_ingest plain_json 5 "edge-1" events login url_error draining.relay).1 in
    let final = rest_of_drain plain_json events down ("b" ∷ []) ("a" ∷ []) queued in
    Reach plain_json 5 "edge-1" draining (record { relay = final; phase = idle })
    × (waiting events final ≡ "a" ∷ undelivered plain_json down 0 ("b" ∷ []))
    × ((channel events final).queued ≡ (channel events draining.relay).queued + 1)
queued_then_lost_example =
    queued_then_lost plain_json 5 "edge-1" events login url_error down "a" ("b" ∷ []) [] draining
      refl draining-IsBounded outage_queues
