-- ===== src/ObjectStore.antt =====
-- ingest_api/object_store.py: the bytes of artifacts in an S3-compatible store. The client of boto3 is
-- a record of operations over an unknown state; what it raises is none. The bytes are UTF-8, so a
-- body is a text.
pub mod Kept
pub mod Memory
use unikernal_honeynet.Base.{
  String, Bool, true, false, ◌&&◌, Option, none, some, ◌≡◌, ◌≢◌, str_eq, if◌then◌else◌, get_or,
  or_text,
}
use unikernal_honeynet.Schemas.{Settings}

pub record Client : Type 1 where
  pub State : Type 0
  -- head_bucket returns
  pub head_bucket : State → String → Bool
  pub create_bucket : State → String → Option State
  -- Bucket, Key, Body, ContentType
  pub put_object : State → String → String → String → String → Option State
  -- the body, and the content type if the answer has one
  pub get_object : State → String → String → Option (String × Option String)

-- What is documented of the store: an object that was put is what a later get of its key answers, and
-- neither another put nor a new bucket changes an object.
pub record IsLawful (C : Client) : Type 0 where
  pub get-put :
      (s t : C.State) (bucket key body content_type b k : String)
      → C.put_object s bucket key body content_type ≡ some t
      → C.get_object t b k ≡ (
          if str_eq bucket b && str_eq key k
          then some (body, some content_type)
          else C.get_object s b k)
  pub get-create :
      (s t : C.State) (bucket b k : String)
      → C.create_bucket s bucket ≡ some t
      → C.get_object t b k ≡ C.get_object s b k

-- A client that raises at nothing it is asked to store.
pub record IsReliable (C : Client) : Type 0 where
  pub creates : (s : C.State) (name : String) → C.create_bucket s name ≢ none
  pub puts :
      (s : C.State) (b k body content_type : String) → C.put_object s b k body content_type ≢ none

-- `bucket or settings.artifact_bucket`
abbrev pub bucket_name : Settings → Option String → String
bucket_name settings bucket = or_text (get_or bucket "") settings.artifact_bucket

abbrev pub read_object : Option (String × Option String) → Option (String × String)
read_object none = none
read_object (some (body, content_type)) =
    some (body, get_or content_type "application/octet-stream")

module _ (C : Client) where
  abbrev pub created : C.State → String → Option C.State → Option String × C.State
  created s name none = (none, s)
  created s name (some t) = (some name, t)

  -- The result, none if the client raises, and the store after the call.
  unfoldable pub ensure_bucket_exists : Settings → Option String → C.State → Option String × C.State
  ensure_bucket_exists settings bucket s =
      let name = bucket_name settings bucket in
      if C.head_bucket s name then (some name, s) else created s name (C.create_bucket s name)

  abbrev pub stored_at :
      C.State → String → String → Option C.State → Option (String × String) × C.State
  stored_at s name key none = (none, s)
  stored_at s name key (some t) = (some (name, key), t)

  abbrev pub put_in :
      String → String → String → Option String × C.State → Option (String × String) × C.State
  put_in key body content_type (none, s) = (none, s)
  put_in key body content_type (some name, s) =
      stored_at s name key (C.put_object s name key body content_type)

  unfoldable pub put_bytes :
      Settings
      → String
      → String
      → String
      → Option String
      → C.State
      → Option (String × String) × C.State
  unfolding ensure_bucket_exists
  put_bytes settings key body content_type bucket s =
      put_in key body content_type (ensure_bucket_exists settings bucket s)

  unfoldable pub get_bytes : String → String → C.State → Option (String × String)
  get_bytes bucket key s = read_object (C.get_object s bucket key)
