-- ===== src/Relay/Queue.antt =====
-- `queue_payload` of edge_relay/app.py: a bounded queue in a file.
use unikernal_honeynet.Base.{
  ℕ, ◌+◌, ◌≤◌, ◌<◌, String, List, [], ◌∷◌, ◌++◌, some, ◌≡◌, ◌∙◌, arith, length, length-append,
  get_last?, get_last?-append,
}
use unikernal_honeynet.Relay.Spool.{IsLine}
use unikernal_honeynet.Relay.{Kind, Relay, queue_payload, trim_spool}
use unikernal_honeynet.Relay.Lines.{
  waiting, IsClean, trim_suffix, length-trim_spool, get_last?-trim_spool, waiting-queue_payload,
}

module _ (n : ℕ) (kind : Kind) (line : String) (relay : Relay) (clean : IsClean kind relay)
    (l : IsLine line) where
  -- With a positive bound, where documents are one line each, a queued payload leaves at most that many lines in the file, is the
  -- last of them, and displaces only the oldest: what the file held with the payload behind it
  -- is some dropped lines followed by what the file holds now.
  pub queue_payload_bounded :
      0 < n
      → (length (waiting kind (queue_payload n kind line relay)) ≤ n)
        × (get_last? (waiting kind (queue_payload n kind line relay)) ≡ some line)
        × ((dropped : List String) × (dropped ++ waiting kind (queue_payload n kind line relay)
              ≡ waiting kind relay ++ line ∷ []))
  queue_payload_bounded pos = rw (waiting-queue_payload n kind line relay clean l) (
    length-trim_spool n _ pos,
    get_last?-trim_spool n _ ∙ get_last?-append (waiting kind relay) line,
    trim_suffix n _,
  )

-- With the bound zero the file is never shortened: each call adds a line.
pub queue_payload_unbounded :
    (kind : Kind) (line : String) (relay : Relay)
    → IsClean kind relay
    → IsLine line
    → length (waiting kind (queue_payload 0 kind line relay)) ≡ length (waiting kind relay) + 1
queue_payload_unbounded kind line relay clean l =
    rw (waiting-queue_payload 0 kind line relay clean l)
      (unfold trim_spool in ground (arith, length-append (waiting kind relay) (line ∷ [])))
