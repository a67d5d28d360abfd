-- ===== src/Tests/Fitting.antt =====
-- The sample inputs fit the columns of ingest_api/models.py, and can be worked on.
use unikernal_honeynet.Base.{ℕ, String, true, ◌≡◌, refl, All, ◌<>◌, strip}
use unikernal_honeynet.Columns.{columns_fit, heartbeat_fits, fits, is_text}
use unikernal_honeynet.Payload.{normalize_payload}
use unikernal_honeynet.Ingest.{new_event}
use unikernal_honeynet.Detections.Rules.{has_cutoff, detection_fingerprint}
use unikernal_honeynet.Detections.Workable.{workable, unworkable, IsOrder}
use unikernal_honeynet.Api.Stored.{IsAcceptable}
use unikernal_honeynet.Samples.{
  sample_settings, sample_engine, login_attempt, login_row, pending_logins, bruteforce,
  sample_heartbeat,
}

pub login_row-fits :
    fits 255 (detection_fingerprint (login_row 3 "e3") bruteforce.detection_type) ≡ true
unfolding fits detection_fingerprint ◌<>◌
login_row-fits = refl

login_row-works : (id : ℕ) (name : String) → workable sample_settings (login_row id name) ≡ true
unfolding workable has_cutoff fits detection_fingerprint ◌<>◌
login_row-works id name = refl

pub pending_logins-work : All (λ event. workable sample_settings event ≡ true) pending_logins
pending_logins-work =
    (login_row-works 1 "e1", (login_row-works 2 "e2", (login_row-works 3 "e3", tt)))

pub none_unworkable : unworkable sample_settings pending_logins ≡ 0
none_unworkable = rw (login_row-works 1 "e1", login_row-works 2 "e2", login_row-works 3 "e3") refl

pub sample_engine-IsOrder : IsOrder sample_engine
sample_engine-IsOrder p xs = refl

pub login_attempt-fits :
    (k : ℕ) → columns_fit (normalize_payload sample_settings sample_engine k login_attempt) ≡ true
unfolding columns_fit fits is_text normalize_payload strip
login_attempt-fits k = refl

pub login_attempt-IsAcceptable : IsAcceptable sample_settings sample_engine login_attempt
unfolding workable has_cutoff fits detection_fingerprint ◌<>◌ normalize_payload new_event strip
login_attempt-IsAcceptable = record { fits = login_attempt-fits; works = λ k id decoy. refl }

pub sample_heartbeat-fits : heartbeat_fits sample_heartbeat ≡ true
unfolding heartbeat_fits fits
sample_heartbeat-fits = refl
