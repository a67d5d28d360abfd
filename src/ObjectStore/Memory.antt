-- ===== src/ObjectStore/Memory.antt =====
-- A store in memory: every bucket exists, and the newest object of a key is found first.
use unikernal_honeynet.Base.{
  String, true, ◌&&◌, List, [], ◌∷◌, Option, none, some, str_eq, if◌then◌else◌, arith,
}
use unikernal_honeynet.ObjectStore.{Client, IsLawful}

pub record Object : Type 0 where
  pub bucket : String
  pub key : String
  pub body : String
  pub content_type : String

abbrev pub find_object : List Object → String → String → Option (String × Option String)
find_object [] b k = none
find_object (o ∷ rest) b k =
    if str_eq o.bucket b && str_eq o.key k
    then some (o.body, some o.content_type)
    else find_object rest b k

abbrev pub memory_client : Client
memory_client = record {
  State = List Object;
  head_bucket = λ s name. true;
  create_bucket = λ s name. some s;
  put_object = λ s b k body content_type.
      some (record { bucket = b; key = k; body = body; content_type = content_type } ∷ s);
  get_object = find_object;
}

pub memory_client-IsLawful : IsLawful memory_client
memory_client-IsLawful = record {
  get-put = λ s t bucket key body content_type b k e. ground (arith, e);
  get-create = λ s t bucket b k e. ground (arith, e);
}
