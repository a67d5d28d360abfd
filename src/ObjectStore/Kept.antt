-- ===== src/ObjectStore/Kept.antt =====
-- ingest_api/object_store.py: what a call of put_bytes leaves in the store.
use unikernal_honeynet.Base.{
  String, ◌&&◌, Option, none, some, ◌≡◌, refl, ap, str_eq, if◌then◌else◌, Bool-cases, inl, inr,
  arith,
}
use unikernal_honeynet.Schemas.{Settings}
use unikernal_honeynet.ObjectStore.{
  Client, IsLawful, IsReliable, bucket_name, created, stored_at, put_in, put_bytes, get_bytes,
  read_object,
}

module _ (C : Client) (lawful : IsLawful C) (settings : Settings) where
  -- What get_bytes answers after put_bytes: if the call succeeded, the new object under its key, and
  -- every other object as before; if it failed, the client raised, and every object is as before.
  abbrev pub Put : String → String → String → C.State → Option (String × String) × C.State → Type 0
  Put key body content_type s (none, t) =
      (¬ IsReliable C) × ((b k : String) → get_bytes C b k t ≡ get_bytes C b k s)
  Put key body content_type s (some (bucket, key'), t) =
      (key' ≡ key)
      × ((b k : String)
          → get_bytes C b k t ≡ (
              if str_eq bucket b && str_eq key k
              then some (body, content_type)
              else get_bytes C b k s))

  created-Put :
      (key body content_type name : String) (s t : C.State) (o : Option C.State)
      → ((b k : String) → C.get_object t b k ≡ C.get_object s b k)
      → C.put_object t name key body content_type ≡ o
      → Put key body content_type s (stored_at C t name key o)
  unfolding get_bytes
  created-Put key body content_type name s t none same e =
      (λ r. r.puts t name key body content_type e, λ b k. ap read_object (same b k))
  created-Put key body content_type name s t (some u) same e =
      (refl, λ b k. ground (arith, lawful.get-put t u name key body content_type b k e, same b k))

  bucket-Put :
      (key body content_type name : String) (s : C.State) (o : Option C.State)
      → C.create_bucket s name ≡ o
      → Put key body content_type s (put_in C key body content_type (created C s name o))
  unfolding get_bytes
  bucket-Put key body content_type name s none e = (λ r. r.creates s name e, λ b k. refl)
  bucket-Put key body content_type name s (some t) e =
      created-Put key body content_type name s t _ (λ b k. lawful.get-create s t name b k e) refl

  pub put_bytes_lem :
      (key body content_type : String) (bucket : Option String) (s : C.State)
      → Put key body content_type s (put_bytes C settings key body content_type bucket s)
  unfolding put_bytes
  put_bytes_lem key body content_type bucket s =
      elim (Bool-cases (C.head_bucket s (bucket_name settings bucket))) [
        | inl e ↦ rw e (created-Put key body content_type _ s s _ (λ b k. refl) refl)
        | inr e ↦ rw e (bucket-Put key body content_type _ s _ refl)
      ]
