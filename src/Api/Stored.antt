-- ===== src/Api/Stored.antt =====
-- `_handle_ingest` and `ingest_heartbeat` of ingest_api/main.py: what sensors send is stored.
use unikernal_honeynet.Base.{
  arith, not, false, [], ◌∷◌, count_if-append, ℕ, String, true, List, some, ◌≡◌, refl, ◌∙◌, sym,
  subst, ap, truthy, Bool-cases, inl, inr,
}
use unikernal_honeynet.Schemas.{IngestEventIn, Settings}
use unikernal_honeynet.Models.{Db, Decoy, Event}
use unikernal_honeynet.Session.{ok, Engine}
use unikernal_honeynet.Session.Keys.{IsUnique, has_key, has_key-update_where, IsUnique-update_where}
use unikernal_honeynet.Ingest.{event_key, new_event}
use unikernal_honeynet.Columns.{columns_fit}
use unikernal_honeynet.Payload.{normalize_payload}
use unikernal_honeynet.Fleet.Report.{with_inventory}
use unikernal_honeynet.Detections.Rules.{has_cutoff, detection_fingerprint}
use unikernal_honeynet.Detections.Workable.{
  workable, unworkable, workable_again, IsOrder, pending-workable,
}
use unikernal_honeynet.Ingest.Once.{Keyed, Inserted, IsMade, Stored, insert_event-Runs}
use unikernal_honeynet.Detections.Kept.{Filed}
use unikernal_honeynet.Detections.Investigated.{AreFiled, AreZoned_again}
use unikernal_honeynet.Detections.Record.{investigation_key, detection_key}
use unikernal_honeynet.Detections.Materialize.{materialize_detections}
use unikernal_honeynet.Detections.Materialized.{Materialized, materialize_detections-Runs}
use unikernal_honeynet.Api.{Reply, stored, process_inline, inserted, close_session, handle_ingest}

module _ (settings : Settings) where
  -- What every commit keeps: the unique columns, times with a zone, and events that can be worked on.
  pub record IsValid (db : Db) : Type 0 where
    pub keyed : Keyed db
    pub filed : Filed db
    pub works : unworkable settings db.events ≡ 0

  -- The payload's values fit their columns, and its event can be worked on, whatever identifier uuid4
  -- gives and whichever decoy is found.
  pub record IsAcceptable (engine : Engine) (payload : IngestEventIn) : Type 0 where
    pub fits : (k : ℕ) → columns_fit (normalize_payload settings engine k payload) ≡ true
    pub works :
        (k id : ℕ) (decoy : Decoy)
        → workable settings (new_event id decoy (normalize_payload settings engine k payload))
          ≡ true

  -- The reply names an event that is in the table; known events stay, an id that was known adds none,
  -- and the columns stay unique.
  pub record Accepted (before : Db) (id : String) (after : Db) : Type 0 where
    pub valid : IsValid after
    pub known : has_key event_key id after.events ≡ true
    pub keys :
        has_key event_key id before.events ≡ true
        → (k : String) → has_key event_key k after.events ≡ has_key event_key k before.events

  -- The inventory's values are no matter.
  made_works :
      (engine : Engine) (payload : IngestEventIn) (s : Db) (e : Event)
      → IsAcceptable engine payload
      → (k : ℕ) × IsMade s (normalize_payload settings engine k payload) e
      → has_key event_key e.event_id s.events ≡ false
      → workable settings e ≡ true
  unfolding workable has_cutoff detection_fingerprint new_event with_inventory
  made_works engine payload s e fine made new =
      let (id, decoy, same) = made.1 new in ap (workable settings) same ∙ fine.works made.0 id decoy

  Inserted-works :
      (s : Db) (e : Event) (d : Db)
      → unworkable settings s.events ≡ 0
      → (has_key event_key e.event_id s.events ≡ false → workable settings e ≡ true)
      → Inserted s e d
      → unworkable settings d.events ≡ 0
  Inserted-works s e d works new i = elim (Bool-cases (has_key event_key e.event_id s.events)) [
    | inl h ↦ let rest = rw (h, Stored) at i.stored in ap (unworkable settings) rest.0 ∙ works
    | inr h ↦
        let rest = rw (h, Stored) at i.stored in
        let fine = new h in
        ap (unworkable settings) rest.0
        ∙ count_if-append (λ event. not (workable settings event)) s.events (e ∷ [])
        ∙ rw fine (omega (arith, works))
  ]

  Inserted-IsValid :
      (s : Db) (e : Event) (d : Db)
      → Filed s
      → unworkable settings d.events ≡ 0
      → Inserted s e d
      → IsValid d
  Inserted-IsValid s e d v works i = record {
    keyed = i.keyed;
    filed = record {
      investigations = subst AreFiled (sym i.investigations) v.investigations;
      detections = subst (IsUnique detection_key) (sym i.detections) v.detections;
    };
    works = works;
  }

  Inserted-keys :
      (s : Db) (e : Event) (d : Db)
      → Inserted s e d
      → has_key event_key e.event_id s.events ≡ true
      → (k : String) → has_key event_key k d.events ≡ has_key event_key k s.events
  Inserted-keys s e d i h k =
      let rest = rw (h, Stored) at i.stored in ap (has_key event_key k) rest.0

  Materialized-IsValid :
      (limit : ℕ) (pending : List Event) (s : Db) (n : ℕ) (d : Db)
      → IsValid s
      → Materialized settings limit pending s n d
      → IsValid d
  Materialized-IsValid limit pending s n d v m = record {
    keyed = record { decoys = m.decoys; events = m.unique v.keyed.events };
    filed = m.filed;
    works = m.workables ∙ v.works;
  }

  -- Closing the session leaves what it holds accepted.
  closed-Accepted :
      (s : Db) (id : String) (d : Db) → Accepted s id d → Accepted s id (close_session d)
  unfolding close_session
  closed-Accepted s id d a =
      let z : Event → Event = λ row. record row { zoned = true } in
      let same : (k : String) → _ =
        λ k. has_key-update_where event_key (λ _. true) z (λ _. refl) k d.events in
      record {
        valid = record {
          keyed = record {
            decoys = a.valid.keyed.decoys;
            events =
                IsUnique-update_where event_key (λ _. true) z (λ _. refl) d.events
                  a.valid.keyed.events;
          };
          filed = record {
            investigations = (
              IsUnique-update_where investigation_key (λ _. true)
                  (λ row. record row { zoned = true }) (λ _. refl) d.investigations
                  a.valid.filed.investigations.0,
              AreZoned_again d.investigations,
            );
            detections = a.valid.filed.detections;
          };
          works = workable_again settings d.events a.valid.works;
        };
        known = same id ∙ a.known;
        keys = λ h k. same k ∙ a.keys h k;
      }

  -- A reply with an id that is accepted.
  abbrev pub Answered : Db → Reply × Db → String → Type 0
  Answered s answer id = (answer.0 ≡ stored id) × Accepted s id answer.1

  Answered-inline :
      (engine : Engine) (s : Db) (e : Event) (d : Db) (n : ℕ) (k : Db)
      → Accepted s e.event_id k
      → materialize_detections settings engine 200 d ≡ ok (n, k)
      → settings.inline_alert_processing ≡ true
      → Answered s (inserted settings engine s (ok (e, d))) e.event_id
  unfolding inserted process_inline
  Answered-inline engine s e d n k accepted runs on =
      let same : inserted settings engine s (ok (e, d)) ≡ (stored e.event_id, close_session k) =
        rw (runs, on) refl in
      subst (λ answer. Answered s answer e.event_id) (sym same)
        (refl, closed-Accepted s e.event_id k accepted)

  inserted-Answered :
      (engine : Engine) (s : Db) (e : Event) (d : Db)
      → IsOrder engine
      → Filed s
      → unworkable settings d.events ≡ 0
      → Inserted s e d
      → Answered s (inserted settings engine s (ok (e, d))) e.event_id
  unfolding inserted
  inserted-Answered engine s e d order v works i =
      let valid = Inserted-IsValid s e d v works i in
      let m =
        materialize_detections-Runs settings engine 200 d valid.keyed.decoys valid.filed
          (pending-workable settings engine 200 d.events order works) in
      elim (Bool-cases settings.inline_alert_processing) [
        | inl on ↦
            Answered-inline engine s e d m.result m.after
              (record {
                valid = Materialized-IsValid 200 _ d m.result m.after valid m.holds;
                known = m.holds.keys e.event_id ∙ i.known;
                keys = λ h k. m.holds.keys k ∙ Inserted-keys s e d i h k;
              })
              m.runs on
        | inr off ↦
            let same : inserted settings engine s (ok (e, d))
                ≡ (stored e.event_id, close_session d) =
              rw off refl in
            subst (λ answer. Answered s answer e.event_id) (sym same)
              (
                refl,
                closed-Accepted s e.event_id d
                    (record { valid = valid; known = i.known; keys = Inserted-keys s e d i }),
              )
      ]

  -- From a valid database, in which every event can be worked on, a payload whose values fit their
  -- columns and whose event can be worked on, too, is never answered with an error, with an order of
  -- the database that neither adds nor drops a row: the reply is 200 with the id of an event that is
  -- in the table, which is the id of the payload if that gives one that is not empty. The database
  -- stays valid, and if the id was known, the table's ids are as before.
  pub handle_ingest_stored :
      (engine : Engine) (payload : IngestEventIn) (s : Db)
      → IsOrder engine
      → IsAcceptable engine payload
      → IsValid s
      → (id : String) × Answered s (handle_ingest settings engine payload s) id
        × ((given : String) → payload.event_id ≡ some given → truthy given ≡ true → id ≡ given)
  unfolding handle_ingest
  handle_ingest_stored engine payload s order fine v =
      let r = insert_event-Runs settings engine payload s fine.fits v.keyed in
      let works =
        Inserted-works s r.result r.after v.works
          (made_works engine payload s r.result fine r.holds.2) r.holds.0 in
      (
        r.result.event_id,
        rw r.runs (inserted-Answered engine s r.result r.after order v.filed works r.holds.0),
        r.holds.1,
      )

  -- From a valid database, sending an event again, whose id is given and not empty, is answered with
  -- the same reply, and the event's id is in the table after the first time, and no id is added by
  -- the second one. Each time the payload's values fit their columns, its event and all those of the
  -- database can be worked on, and the database's order neither adds nor drops a row.
  pub resent_once :
      (engine again : Engine) (payload : IngestEventIn) (s : Db) (id : String)
      → IsOrder engine
      → IsOrder again
      → IsAcceptable engine payload
      → IsAcceptable again payload
      → IsValid s
      → payload.event_id ≡ some id
      → truthy id ≡ true
      → let first = handle_ingest settings engine payload s in
        let second = handle_ingest settings again payload first.1 in
        (first.0 ≡ stored id)
        × (second.0 ≡ stored id)
        × (has_key event_key id first.1.events ≡ true)
        × ((k : String) → has_key event_key k second.1.events ≡ has_key event_key k first.1.events)
  resent_once engine again payload s id order order' fine fine' v given t =
      let a = handle_ingest_stored engine payload s order fine v in
      let first = handle_ingest settings engine payload s in
      let b = handle_ingest_stored again payload first.1 order' fine' a.1.1.valid in
      let known : has_key event_key id first.1.events ≡ true =
        subst (λ x. has_key event_key x first.1.events ≡ true) (a.2 id given t) a.1.1.known in
      (
        a.1.0 ∙ ap stored (a.2 id given t),
        b.1.0 ∙ ap stored (b.2 id given t),
        known,
        b.1.1.keys
            (subst (λ x. has_key event_key x first.1.events ≡ true) (sym (b.2 id given t)) known),
      )
