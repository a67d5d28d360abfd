-- ===== src/Relay/Health.antt =====
-- The relay's view of its upstream: `_handle_ingest` and `health` of edge_relay/app.py.
use unikernal_honeynet.Base.{
  str, ℕ, String, List, [], ◌∷◌, some, ◌≡◌, ◌≢◌, ◌↔◌, true, ◌∙◌, refl, arith, All, get_last?,
  get_last?-append, ◌<>◌,
}
use unikernal_honeynet.Relay.Spool.{IsLine}
use unikernal_honeynet.Relay.{
  Kind, events, heartbeats, Relay, Json, Payload, IsCodec, Response, answers, url_error,
  timeout_error, other_error, replies_forwarded, replies_queued, queue_payload, completed,
  handle_ingest, health,
}
use unikernal_honeynet.Relay.Lines.{waiting, IsClean, waiting-queue_payload, get_last?-trim_spool}
use unikernal_honeynet.Relay.Drain.{accepts}

-- The requests that a relay serves one after the other, each with what `urlopen` does for it.
abbrev pub Request : Json → Type 0
Request json = Kind × Payload json × Response

pub serve : (json : Json) → ℕ → String → List (Request json) → Relay → Relay
serve json n node [] relay = relay
serve json n node ((kind, payload, response) ∷ rest) relay =
    serve json n node rest (handle_ingest json n node kind payload response relay).1

-- `urlopen` raised: there is no answer with a status.
abbrev pub IsRaise : Response → Type 0
IsRaise (answers status) = ⊥
IsRaise _ = Unit

-- The relay with another last error: the channels are the same.
abbrev pub with_error : Relay → String → Relay
with_error relay e = record relay { last_upstream_error = e }

pub with_error-IsClean :
    (kind : Kind) (relay : Relay) (e : String)
    → IsClean kind relay
    → IsClean kind (with_error relay e)
with_error-IsClean events relay e h = h
with_error-IsClean heartbeats relay e h = h

get_last?-queue_payload :
    (n : ℕ) (kind : Kind) (line : String) (relay : Relay)
    → IsClean kind relay
    → IsLine line
    → get_last? (waiting kind (queue_payload n kind line relay)) ≡ some line
get_last?-queue_payload n kind line relay clean l =
    rw (waiting-queue_payload n kind line relay clean l)
      (get_last?-trim_spool n _ ∙ get_last?-append (waiting kind relay) line)

module _ (json : Json) (n : ℕ) (node : String) (payload : Payload json) (relay : Relay) where
  handle_ingest-accepts :
      (kind : Kind) (response : Response)
      → ((handle_ingest json n node kind payload response relay).0 ≡ replies_forwarded)
        ↔ (accepts response ≡ true)
  unfolding handle_ingest
  handle_ingest-accepts kind response = (λ h. ground arith, λ h. ground arith)

  -- A reply other than "queued" leaves every file alone.
  pub handle_ingest_kept :
      (kind other : Kind) (response : Response)
      → (handle_ingest json n node kind payload response relay).0 ≢ replies_queued
      → waiting other (handle_ingest json n node kind payload response relay).1
        ≡ waiting other relay
  unfolding handle_ingest
  handle_ingest_kept events events response h = ground arith
  handle_ingest_kept events heartbeats response h = ground arith
  handle_ingest_kept heartbeats events response h = ground arith
  handle_ingest_kept heartbeats heartbeats response h = ground arith

  -- A reply "queued" is a call of `queue_payload` with the completed payload.
  pub handle_ingest_queued :
      (kind : Kind) (response : Response)
      → (handle_ingest json n node kind payload response relay).0 ≡ replies_queued
      → (e : String) × ((handle_ingest json n node kind payload response relay).1
          ≡ queue_payload n kind (json.dumps (completed json node payload)) (with_error relay e))
  unfolding handle_ingest
  handle_ingest_queued kind (answers status) h = ("upstream returned " <> str status, ground arith)
  handle_ingest_queued kind url_error h = (relay.last_upstream_error, refl)
  handle_ingest_queued kind timeout_error h = (relay.last_upstream_error, refl)
  handle_ingest_queued kind other_error h = (relay.last_upstream_error, cc)

module _ (json : Json) (codec : IsCodec json) (n : ℕ) (node : String) (kind : Kind)
    (payload : Payload json) (response : Response) (relay : Relay)
    (clean : IsClean kind relay) where
  -- With a codec that reads back what it writes, and documents of one line each: the reply is "forwarded" exactly if the upstream
  -- takes the payload, and then the file is left alone; and after the reply "queued" the last line
  -- of the file reads back as the payload with the relay's defaults.
  pub handle_ingest_lem :
      let (reply, after) = handle_ingest json n node kind payload response relay in
      ((reply ≡ replies_forwarded) ↔ (accepts response ≡ true))
      × (reply ≡ replies_forwarded → waiting kind after ≡ waiting kind relay)
      × (reply ≡ replies_queued
          → (line : String) × (get_last? (waiting kind after) ≡ some line)
            × (json.loads line ≡ some (completed json node payload)))
  handle_ingest_lem = (
    handle_ingest-accepts json n node payload relay kind response,
    λ h. handle_ingest_kept json n node payload relay kind kind response (λ q. cc),
    λ h.
        let line = json.dumps (completed json node payload) in
        let (e, after) = handle_ingest_queued json n node payload relay kind response h in
        (
          line,
          rw after (
              get_last?-queue_payload n kind line (with_error relay e)
                (with_error-IsClean kind relay e clean) (codec.dumps-IsLine _)),
          codec.loads-dumps _,
        ),
  )

handle_ingest_raise :
    (json : Json) (n : ℕ) (node : String) (kind : Kind) (payload : Payload json)
    (response : Response) (relay : Relay)
    → IsRaise response
    → (handle_ingest json n node kind payload response relay).1.last_upstream_error
      ≡ relay.last_upstream_error
unfolding handle_ingest queue_payload
handle_ingest_raise json n node events payload response relay h = ground arith
handle_ingest_raise json n node heartbeats payload response relay h = ground arith

-- While every request to the upstream ends in an exception of `urlopen` (no connection, a timeout,
-- an HTTP error), however many payloads are queued, the reported relay health does not change.
pub outage_unseen :
    (json : Json) (n : ℕ) (node : String) (requests : List (Request json)) (relay : Relay)
    → All (λ request. IsRaise request.2) requests
    → (health (serve json n node requests relay)).relay_health ≡ (health relay).relay_health
unfolding serve health
outage_unseen json n node [] relay h = refl
outage_unseen json n node ((kind, payload, response) ∷ rest) relay h = ground (
  arith,
  handle_ingest_raise json n node kind payload response relay h.0,
  outage_unseen json n node rest (handle_ingest json n node kind payload response relay).1 h.1,
)
