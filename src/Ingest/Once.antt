-- ===== src/Ingest/Once.antt =====
-- insert_event of ingest_api/services.py returns, and stores an event at most once.
use unikernal_honeynet.Base.{
  ℕ, suc, String, true, false, ◌||◌, List, [], ◌∷◌, ◌++◌, none, some, ◌≡◌, refl, ◌∙◌, sym, subst,
  ap, arith, truthy, Bool-cases, inl, inr, eq_iff,
}
use unikernal_honeynet.Schemas.{IngestEventIn, Settings}
use unikernal_honeynet.Models.{Db, Decoy, Event, CredentialAttempt}
use unikernal_honeynet.Session.{Engine}
use unikernal_honeynet.Session.Total.{
  Runs, Runs-pure, Runs-bind, Runs-weaken, gets_then, require_then, fresh_then, Runs-modify,
  Runs-insert_unique,
}
use unikernal_honeynet.Session.Keys.{
  IsUnique, IsUnique-append, has_key, has_key-append, Found, Found_cases, one_by_key,
}
use unikernal_honeynet.Payload.{Normalized, normalize_payload}
use unikernal_honeynet.Columns.{columns_fit}
use unikernal_honeynet.Fleet.Report.{with_inventory}
use unikernal_honeynet.Fleet.Rows.{decoy_key}
use unikernal_honeynet.Fleet.Step.{FleetStep, HasUnique}
use unikernal_honeynet.Fleet.Valid.{reconcile-Runs}
use unikernal_honeynet.Fleet.Reports.{Reported, upsert_decoy-Runs}
use unikernal_honeynet.Ingest.{
  event_key, find_event, add_event, new_event, new_credential, add_credential, insert_found,
  insert_event,
}

-- A credential attempt is stored with an event exactly if this has a user name or a password.
abbrev pub Attempted : List CredentialAttempt → Event → List CredentialAttempt → Type 0
Attempted before e after = elim (truthy e.username || truthy e.password) [
  | true ↦
      (c : CredentialAttempt) × (after ≡ before ++ c ∷ [])
      × (c.event_pk ≡ e.id)
      × (c.username ≡ e.username)
      × (c.password ≡ e.password)
  | false ↦ after ≡ before
]

-- What an insertion does to the tables of events and credentials.
abbrev pub Stored : Db → Event → Db → Type 0
Stored s e d = elim (has_key event_key e.event_id s.events) [
  | true ↦ (d.events ≡ s.events) × (d.credentials ≡ s.credentials)
  | false ↦
      (d.events ≡ s.events ++ e ∷ [])
      × (e.alert_processed ≡ false)
      × Attempted s.credentials e d.credentials
]

-- The unique columns that the insertion of an event touches.
pub record Keyed (s : Db) : Type 0 where
  pub decoys : HasUnique s
  pub events : IsUnique event_key s.events

pub record Inserted (s : Db) (e : Event) (d : Db) : Type 0 where
  pub keyed : Keyed d
  pub known : has_key event_key e.event_id d.events ≡ true
  pub stored : Stored s e d
  pub investigations : d.investigations ≡ s.investigations
  pub detections : d.detections ≡ s.detections

find_event-Runs :
    (event_id : String) (s : Db)
    → IsUnique event_key s.events
    → Runs (find_event event_id) s (Found event_key event_id s.events s)
unfolding find_event
find_event-Runs event_id s u = gets_then _ _ (one_by_key event_key event_id s.events s u)

-- Only the credentials may grow.
abbrev CredentialStep : Db → Event → Db → Type 0
CredentialStep s e d =
    (d.decoys ≡ s.decoys)
    × (d.events ≡ s.events)
    × (d.investigations ≡ s.investigations)
    × (d.detections ≡ s.detections)
    × Attempted s.credentials e d.credentials

add_credential-Runs :
    (id : ℕ) (decoy : Decoy) (n : Normalized) (s : Db)
    → Runs (add_credential id n) s (λ _ d. CredentialStep s (new_event id decoy n) d)
unfolding add_credential new_event new_credential
add_credential-Runs id decoy n s = elim (Bool-cases (truthy n.username || truthy n.password)) [
  | inl e ↦ rw e (
      fresh_then _ (
        Runs-modify _ _ _ (
          refl,
          refl,
          refl,
          refl,
          rw (e, Attempted) (new_credential s.next_id id n, refl, refl, refl, refl),
        )))
  | inr e ↦ rw e (Runs-pure tt s _ (refl, refl, refl, refl, rw (e, Attempted) refl))
]

add_event-Runs :
    (event : Event) (s : Db)
    → has_key event_key event.event_id s.events ≡ false
    → Runs (add_event event) s (λ _ d. d ≡ record s { events = s.events ++ event ∷ [] })
add_event-Runs event s new =
    let r =
      Runs-insert_unique event_key event s.events (λ rows d. record d { events = rows }) s
        (λ _ d. d ≡ record s { events = s.events ++ event ∷ [] }) new refl in
    unfold add_event in
    record { result = r.result; after = r.after; runs = r.runs; holds = r.holds }

-- The row that a new id gets has the payload's values, with the inventory's in their place where the
-- payload has none.
abbrev pub IsMade : Db → Normalized → Event → Type 0
IsMade s n e =
    has_key event_key e.event_id s.events ≡ false
    → (id : ℕ) × (decoy : Decoy) × (e ≡ new_event id decoy (with_inventory decoy n))

-- The parts of a first insertion, put together.
Inserted-new :
    (n : Normalized) (decoy : Decoy) (n' : Normalized) (s d f k : Db)
    → Keyed s
    → has_key event_key n.event_id s.events ≡ false
    → Reported s n (decoy, n') d
    → f
      ≡ record d { next_id = suc d.next_id; events = d.events ++ new_event d.next_id decoy n' ∷ [] }
    → CredentialStep f (new_event d.next_id decoy n') k
    → Inserted s (new_event d.next_id decoy n') k
Inserted-new n decoy n' s d f k v new h g c =
    let e = new_event d.next_id decoy n' in
    let same : e.event_id ≡ n.event_id = unfold new_event in h.3 in
    let rows : k.events ≡ s.events ++ e ∷ [] =
      c.1 ∙ ap (λ (x : Db). x.events) g ∙ ap (λ xs. xs ++ e ∷ []) h.0.events in
    let fresh : has_key event_key e.event_id s.events ≡ false = rw same new in
    record {
      keyed = record {
        decoys =
            subst (λ xs. IsUnique decoy_key xs) (sym (c.0 ∙ ap (λ (x : Db). x.decoys) g))
              h.0.unique;
        events = rw rows (IsUnique-append event_key s.events e v.events fresh);
      };
      known = rw rows (
          rw (has_key-append event_key e.event_id s.events e)
            (ground (arith, eq_iff e.event_id e.event_id)));
      stored =
          rw (fresh, Stored)
            (
              rows,
              unfold new_event in refl,
              rw (← (ap (λ (x : Db). x.credentials) g ∙ h.0.credentials)) c.4,
            );
      investigations = c.2 ∙ ap (λ (x : Db). x.investigations) g ∙ h.0.investigations;
      detections = c.3 ∙ ap (λ (x : Db). x.detections) g ∙ h.0.detections;
    }

insert_none-Runs :
    (engine : Engine) (n : Normalized) (s : Db)
    → Keyed s
    → has_key event_key n.event_id s.events ≡ false
    → columns_fit n ≡ true
    → Runs
        (insert_found engine n none)
        s
        (λ e d. Inserted s e d × (e.event_id ≡ n.event_id) × IsMade s n e)
unfolding insert_found new_event
insert_none-Runs engine n s v new fit =
    Runs-bind _ _ (upsert_decoy-Runs engine n s v.decoys) λ pair d h. require_then _ _ fit (
      fresh_then _ (
        Runs-bind _ _
          (add_event-Runs (new_event d.next_id pair.0 pair.1) (record d { next_id = suc d.next_id })
            (rw (h.0.events, h.3) new))
          λ _ f g. Runs-bind _ _ (add_credential-Runs d.next_id pair.0 pair.1 f) λ _ k c.
            Runs-pure _ k _ (
              Inserted-new n pair.0 pair.1 s d f k v new h g c,
              h.3,
              λ _. (d.next_id, pair.0, ap (new_event d.next_id pair.0) h.4),
            )))

insert_some-Runs :
    (engine : Engine) (n : Normalized) (row : Event) (s : Db)
    → Keyed s
    → row.event_id ≡ n.event_id
    → has_key event_key n.event_id s.events ≡ true
    → Runs
        (insert_found engine n (some row))
        s
        (λ e d. Inserted s e d × (e.event_id ≡ n.event_id) × IsMade s n e)
unfolding insert_found
insert_some-Runs engine n row s v same known =
    let here : has_key event_key row.event_id s.events ≡ true = rw same known in
    Runs-pure row s _ (
      record {
        keyed = v;
        known = here;
        stored = rw (here, Stored) (refl, refl);
        investigations = refl;
        detections = refl;
      },
      same,
      λ fresh. absurd (ground (arith, here, fresh)),
    )

-- After the inventory is written, which changes neither events nor credentials.
Inserted-after :
    (s d e : Db) (event : Event) → FleetStep s d → Inserted d event e → Inserted s event e
Inserted-after s d e event h i = record {
  keyed = i.keyed;
  known = i.known;
  stored = rw (← h.events, ← h.credentials) i.stored;
  investigations = i.investigations ∙ h.investigations;
  detections = i.detections ∙ h.detections;
}

truthy_id :
    (settings : Settings) (engine : Engine) (k : ℕ) (payload : IngestEventIn) (id : String)
    → payload.event_id ≡ some id
    → truthy id ≡ true
    → (normalize_payload settings engine k payload).event_id ≡ id
unfolding normalize_payload
truthy_id settings engine k payload id e t = rw e (ground arith)

pub insert_event-Runs :
    (settings : Settings) (engine : Engine) (payload : IngestEventIn) (s : Db)
    → ((k : ℕ) → columns_fit (normalize_payload settings engine k payload) ≡ true)
    → Keyed s
    → Runs (insert_event settings engine payload) s (λ e d.
      Inserted s e d
      × ((id : String) → payload.event_id ≡ some id → truthy id ≡ true → e.event_id ≡ id)
      × ((k : ℕ) × IsMade s (normalize_payload settings engine k payload) e))
unfolding insert_event
insert_event-Runs settings engine payload s fit v =
    Runs-bind _ _ (reconcile-Runs settings engine s v.decoys) λ _ d h.
      let w : Keyed d = record { decoys = h.0.unique; events = rw h.0.events v.events } in
      let n = normalize_payload settings engine d.next_id payload in
      gets_then _ _ (
        Runs-bind _ _ (find_event-Runs n.event_id d w.events) λ o d' g.
          Runs-weaken
            (Found_cases event_key n.event_id d.events d d' o (insert_found engine n)
              (λ e k. Inserted d e k × (e.event_id ≡ n.event_id) × IsMade d n e) g
              (λ new. insert_none-Runs engine n d w new (fit d.next_id))
              (λ row same known. insert_some-Runs engine n row d w same known))
            λ e k i. (
              Inserted-after s d k e h.0 i.0,
              λ id given t. i.1 ∙ truthy_id settings engine d.next_id payload id given t,
              (d.next_id, λ new. i.2 (ap (has_key event_key e.event_id) h.0.events ∙ new)),
            ))
