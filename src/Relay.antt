-- ===== src/Relay.antt =====
-- edge_relay/app.py: the relay between the decoys and the ingest API. It forwards each payload to
-- the upstream, keeps in a spool file what it could not deliver, and replays the file later.
mod Spool
mod Lines
pub mod Queue
pub mod Drain
pub mod Race
pub mod Health
pub mod Codec
pub mod Tests
use unikernal_honeynet.Base.{
  ℕ, zero, suc, ◌+◌, ◌-◌, String, Bool, true, false, List, [], ◌∷◌, ◌++◌, Option, none, some, leb,
  ltb, ◌==◌, if◌then◌else◌, length, drop, ◌<>◌, ◌≡◌, str_eq, truthy, get_or, any, str,
}
use Spool.{splitlines, unlines, IsLine}

pub data Kind : Type 0 where
  events heartbeats : Kind

-- One kind's spool file, none if there is no such file, and its counters in `_stats`.
pub record Channel : Type 0 where
  pub spool : Option String
  pub forwarded : ℕ
  pub queued : ℕ
  pub replayed : ℕ
  pub failed : ℕ

pub record Relay : Type 0 where
  pub events : Channel
  pub heartbeats : Channel
  pub last_upstream_error : String

abbrev pub channel : Kind → Relay → Channel
channel events r = r.events
channel heartbeats r = r.heartbeats

abbrev pub set_channel : Kind → Channel → Relay → Relay
set_channel events c r = record r { events = c }
set_channel heartbeats c r = record r { heartbeats = c }

-- A JSON object, in the order of its keys, and the codec of its values.
pub record Json : Type 1 where
  pub Value : Type 0
  pub text : String → Value
  pub dumps : List (String × Value) → String
  pub loads : String → Option (List (String × Value))

abbrev pub Payload : Json → Type 0
Payload j = List (String × j.Value)

-- What the relay relies on: a document is read back as it was, and written without a line break.
pub record IsCodec (j : Json) : Type 0 where
  pub loads-dumps : (p : Payload j) → j.loads (j.dumps p) ≡ some p
  pub dumps-IsLine : (p : Payload j) → IsLine (j.dumps p)

-- What `urlopen` does with a request: it answers or raises. An `HTTPError` is a `URLError`.
pub data Response : Type 0 where
  answers : (status : ℕ) → Response
  url_error timeout_error other_error : Response

-- How `forward_payload` ends.
pub data Forward : Type 0 where
  delivered url_error timeout_error runtime_error other_error : Forward

-- The call's end, and the new `_last_upstream_error`: an exception of `urlopen` leaves it as it was.
pub forward_payload : Response → String → Forward × String
forward_payload (answers status) last_error =
    if leb 400 status
    then (Forward.runtime_error, "upstream returned " <> str status)
    else (delivered, "")
forward_payload Response.url_error last_error = (Forward.url_error, last_error)
forward_payload Response.timeout_error last_error = (Forward.timeout_error, last_error)
forward_payload Response.other_error last_error = (Forward.other_error, last_error)

-- The lines of the spool: no file is no lines.
abbrev pub spool_lines : Option String → List String
spool_lines none = []
spool_lines (some content) = splitlines content

-- `xs[-n:]`: from zero on, `-0` is the first position.
pub last_items {ℓ} : {A : Type ℓ} → ℕ → List A → List A
last_items n xs = if n == 0 then xs else drop (length xs - n) xs

pub trim_spool : ℕ → List String → List String
unfolding last_items
trim_spool max_spool_lines existing =
    if ltb max_spool_lines (length existing) then last_items max_spool_lines existing else existing

-- `queue_payload`, on the document's text.
pub queue_payload : ℕ → Kind → String → Relay → Relay
unfolding trim_spool unlines splitlines
queue_payload max_spool_lines kind line relay =
    let c = channel kind relay in
    let existing = trim_spool max_spool_lines (spool_lines c.spool ++ line ∷ []) in
    set_channel kind (record c { spool = some (unlines existing); queued = c.queued + 1 }) relay

-- The first locked block of `drain_spool_once`: the lines, which the file then no longer holds.
-- None where the function returns early.
take_lines : Kind → List String → Relay → Option (List String) × Relay
take_lines kind [] relay = (none, relay)
take_lines kind (line ∷ rest) relay =
    (some (line ∷ rest), set_channel kind (record (channel kind relay) { spool = some "" }) relay)

pub take_spool : Kind → Relay → Option (List String) × Relay
unfolding take_lines splitlines
take_spool kind relay = elim (channel kind relay).spool [
  | none ↦ (none, relay)
  | some content ↦ take_lines kind (splitlines content) relay
]

pub count_replayed : Kind → Relay → Relay
count_replayed kind relay =
    let c = channel kind relay in set_channel kind (record c { replayed = c.replayed + 1 }) relay

pub count_failed : Kind → Relay → Relay
count_failed kind relay =
    let c = channel kind relay in set_channel kind (record c { failed = c.failed + 1 }) relay

-- The end of `forward_payload` in the replay: was the line delivered?
settle_line : Kind → Forward → Relay → Bool × Relay
unfolding count_replayed count_failed
settle_line kind delivered relay = (true, count_replayed kind relay)
settle_line kind _ relay = (false, count_failed kind relay)

-- The body of the replay's loop: the upstream's response is that to this line's request.
pub replay_line : Json → Kind → Response → String → Relay → Bool × Relay
unfolding settle_line forward_payload
replay_line json kind response line relay = elim (json.loads line) [
  | none ↦ (false, count_failed kind relay)
  | some payload ↦
      let (end, last_error) = forward_payload response relay.last_upstream_error in
      settle_line kind end (record relay { last_upstream_error = last_error })
]

-- The loop over the lines taken: the upstream answers the i-th request by `respond i`.
pub replay_lines : Json → Kind → (ℕ → Response) → ℕ → List String → Relay → List String × Relay
unfolding replay_line
replay_lines json kind respond i [] relay = ([], relay)
replay_lines json kind respond i (line ∷ rest) relay =
    let (sent, relay') = replay_line json kind (respond i) line relay in
    let (failed, relay'') = replay_lines json kind respond (i + 1) rest relay' in
    (if sent then failed else line ∷ failed, relay'')

-- The last locked block of `drain_spool_once`.
pub restore_spool : Kind → List String → Relay → Relay
unfolding unlines
restore_spool kind [] relay = relay
restore_spool kind (line ∷ rest) relay =
    set_channel kind (record (channel kind relay) { spool = some (unlines (line ∷ rest)) }) relay

replay_taken : Json → Kind → (ℕ → Response) → Option (List String) → Relay → Relay
unfolding replay_lines restore_spool
replay_taken json kind respond none relay = relay
replay_taken json kind respond (some lines) relay =
    let (failed, relay') = replay_lines json kind respond 0 lines relay in
    restore_spool kind failed relay'

pub drain_spool_once : Json → Kind → (ℕ → Response) → Relay → Relay
unfolding take_spool replay_taken
drain_spool_once json kind respond relay =
    let (lines, relay') = take_spool kind relay in replay_taken json kind respond lines relay'

-- `dict.setdefault`.
pub setdefault {ℓ} : {V : Type ℓ} → String → V → List (String × V) → List (String × V)
setdefault key v payload =
    if any (λ entry. str_eq entry.0 key) payload then payload else payload ++ (key, v) ∷ []

-- What the client gets: the two replies, and an exception that no handler catches (status 500).
pub data Reply : Type 0 where
  replies_forwarded replies_queued raises : Reply

pub Reply-discrete : Discrete Reply
Reply-discrete = hlevel

settle_ingest : ℕ → Kind → String → Forward → Relay → Reply × Relay
unfolding queue_payload
settle_ingest max_spool_lines kind line delivered relay =
    let c = channel kind relay in
    (replies_forwarded, set_channel kind (record c { forwarded = c.forwarded + 1 }) relay)
settle_ingest max_spool_lines kind line Forward.other_error relay = (raises, relay)
settle_ingest max_spool_lines kind line _ relay =
    (replies_queued, queue_payload max_spool_lines kind line relay)

-- The payload with the relay's defaults.
pub completed : (json : Json) → String → Payload json → Payload json
unfolding setdefault
completed json edge_node_id payload =
    setdefault "collector_version" (json.text "edge-relay/0.2.0")
      (setdefault "edge_node_id" (json.text edge_node_id) payload)

-- `_handle_ingest`: `edge_node_id` is the environment's EDGE_NODE_ID or "unknown-edge".
pub handle_ingest :
    (json : Json) → ℕ → String → Kind → Payload json → Response → Relay → Reply × Relay
unfolding completed settle_ingest forward_payload
handle_ingest json max_spool_lines edge_node_id kind payload response relay =
    let line = json.dumps (completed json edge_node_id payload) in
    let (end, last_error) = forward_payload response relay.last_upstream_error in
    settle_ingest max_spool_lines kind line end (record relay { last_upstream_error = last_error })

pub data RelayHealth : Type 0 where
  healthy degraded : RelayHealth

-- The computed part of the `/health` answer.
pub record HealthReport : Type 0 where
  pub relay_health : RelayHealth
  pub event_lines : ℕ
  pub heartbeat_lines : ℕ

pub health : Relay → HealthReport
unfolding splitlines
health relay = record {
  relay_health = if truthy relay.last_upstream_error then degraded else healthy;
  event_lines = length (spool_lines relay.events.spool);
  heartbeat_lines = length (spool_lines relay.heartbeats.spool);
}
