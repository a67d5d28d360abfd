-- ===== src/Relay/Codec.antt =====
-- A codec of documents in place of Python's json in edge_relay/app.py, to run the relay with: it
-- escapes the line breaks and reads back what it wrote.
use Prim.Native.Char.{Char, code}
use Prim.Native.String.{char_at}
use text.Mathlib.TextEquality.{Char-path}
use unikernal_honeynet.Base.{
  ℕ, String, Bool, true, false, List, [], ◌∷◌, some, ◌≡◌, refl, ◌∙◌, ap, arith, ◌==◌, if◌then◌else◌,
  Bool-cases, inl, inr,
}
use unikernal_honeynet.Relay.Spool.{is_break, IsLine}
use unikernal_honeynet.Relay.{Json, IsCodec}

escape : Char → Char
escape c =
    if code c == 10
    then char_at "a" 0
    else if code c == 11
    then char_at "b" 0
    else if code c == 12
    then char_at "c" 0
    else if code c == 13
    then char_at "d" 0
    else if code c == 28
    then char_at "e" 0
    else if code c == 29
    then char_at "f" 0
    else if code c == 30
    then char_at "g" 0
    else if code c == 133
    then char_at "h" 0
    else if code c == 8232
    then char_at "i" 0
    else char_at "j" 0

unescape : Char → Char
unescape c =
    if code c == 97
    then char_at "\n" 0
    else if code c == 98
    then char_at "\u{b}" 0
    else if code c == 99
    then char_at "\u{c}" 0
    else if code c == 100
    then char_at "\r" 0
    else if code c == 101
    then char_at "\u{1c}" 0
    else if code c == 102
    then char_at "\u{1d}" 0
    else if code c == 103
    then char_at "\u{1e}" 0
    else if code c == 104
    then char_at "\u{85}" 0
    else if code c == 105
    then char_at "\u{2028}" 0
    else char_at "\u{2029}" 0

-- One test of `escape`, undone.
unescape-if :
    (c : Char) (n : ℕ) (x y : Char)
    → code (unescape x) ≡ n
    → ((code c == n) ≡ false → unescape y ≡ c)
    → unescape (if code c == n then x else y) ≡ c
unescape-if c n x y hit miss = elim (Bool-cases (code c == n)) [
  | inl e ↦ rw e (Char-path (unescape x) c (hit ∙ ground (arith, e)))
  | inr e ↦ rw e (miss e)
]

unescape-escape : (c : Char) → is_break c ≡ true → unescape (escape c) ≡ c
unfolding unescape escape
unescape-escape c h = unescape-if c 10 _ _ refl λ a. unescape-if c 11 _ _ refl λ b.
    unescape-if c 12 _ _ refl λ d. unescape-if c 13 _ _ refl λ e. unescape-if c 28 _ _ refl λ f.
      unescape-if c 29 _ _ refl λ g. unescape-if c 30 _ _ refl λ i. unescape-if c 133 _ _ refl λ j.
        unescape-if c 8232 _ _ refl
          λ k. Char-path _ c (ground (arith, a, b, d, e, f, g, i, j, k, h))

record IsPlain (c : Char) : Type 0 where
  plain : is_break c ≡ false

choose : (b : Bool) (x y : Char) → is_break x ≡ false → IsPlain y → IsPlain (if b then x else y)
choose true x y h k = record { plain = h }
choose false x y h k = k

escape-IsPlain : (c : Char) → IsPlain (escape c)
unfolding escape
escape-IsPlain c = choose (code c == 10) (char_at "a" 0) _ refl (
    choose (code c == 11) (char_at "b" 0) _ refl (
      choose (code c == 12) (char_at "c" 0) _ refl (
        choose (code c == 13) (char_at "d" 0) _ refl (
          choose (code c == 28) (char_at "e" 0) _ refl (
            choose (code c == 29) (char_at "f" 0) _ refl (
              choose (code c == 30) (char_at "g" 0) _ refl (
                choose (code c == 133) (char_at "h" 0) _ refl
                  (choose (code c == 8232) (char_at "i" 0) _ refl (record { plain = refl })))))))))

-- A text, with a mark before each character and two marks at its end.
encode : String → String → String
unfolding escape
encode String.[] rest = String.◌∷◌ (char_at "t" 0) (String.◌∷◌ (char_at "t" 0) rest)
encode (String.◌∷◌ c s) rest =
    let more = encode s rest in
    if is_break c
    then String.◌∷◌ (char_at "e" 0) (String.◌∷◌ (escape c) more)
    else String.◌∷◌ (char_at "k" 0) (String.◌∷◌ c more)

put : Char → List String → List String
put c [] = []
put c (s ∷ rest) = String.◌∷◌ c s ∷ rest

pub decode : String → List String
unfolding put unescape
decode String.[] = []
decode (String.◌∷◌ c String.[]) = []
decode (String.◌∷◌ c (String.◌∷◌ d s)) =
    let rest = decode s in
    if code c == 116 then "" ∷ rest else put (if code c == 107 then d else unescape d) rest

decode-encode : (s rest : String) → decode (encode s rest) ≡ s ∷ decode rest
unfolding decode encode put
decode-encode String.[] rest = refl
decode-encode (String.◌∷◌ c s) rest = elim (Bool-cases (is_break c)) [
  | inl e ↦ rw (e, decode-encode s rest, unescape-escape c e) refl
  | inr e ↦ rw (e, decode-encode s rest) refl
]

encode-IsLine : (s rest : String) → IsLine rest → IsLine (encode s rest)
unfolding encode
encode-IsLine String.[] rest h = (refl, (refl, h))
encode-IsLine (String.◌∷◌ c s) rest h = elim (Bool-cases (is_break c)) [
  | inl e ↦ rw e (refl, ((escape-IsPlain c).plain, encode-IsLine s rest h))
  | inr e ↦ rw e (refl, (e, encode-IsLine s rest h))
]

pub dump_pairs : List (String × String) → String
unfolding encode
dump_pairs [] = ""
dump_pairs ((key, value) ∷ rest) = encode key (encode value (dump_pairs rest))

pub pairs : List String → List (String × String)
pairs [] = []
pairs (key ∷ []) = []
pairs (key ∷ value ∷ rest) = (key, value) ∷ pairs rest

pairs-decode : (p : List (String × String)) → pairs (decode (dump_pairs p)) ≡ p
unfolding dump_pairs decode pairs
pairs-decode [] = refl
pairs-decode ((key, value) ∷ rest) =
    ap pairs (
      decode-encode key (encode value (dump_pairs rest))
      ∙ ap (λ xs. key ∷ xs) (decode-encode value (dump_pairs rest)))
    ∙ ap (λ xs. (key, value) ∷ xs) (pairs-decode rest)

dump_pairs-IsLine : (p : List (String × String)) → IsLine (dump_pairs p)
unfolding dump_pairs
dump_pairs-IsLine [] = tt
dump_pairs-IsLine ((key, value) ∷ rest) =
    encode-IsLine key _ (encode-IsLine value _ (dump_pairs-IsLine rest))

abbrev pub plain_json : Json
plain_json = record {
  Value = String;
  text = λ s. s;
  dumps = dump_pairs;
  loads = λ s. some (pairs (decode s));
}

pub plain_json-IsCodec : IsCodec plain_json
plain_json-IsCodec = record {
  loads-dumps = λ p. ap some (pairs-decode p);
  dumps-IsLine = dump_pairs-IsLine;
}
