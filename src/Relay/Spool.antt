-- ===== src/Relay/Spool.antt =====
-- The text of a spool file (edge_relay/app.py): one JSON document to a line, written with "\n".join
-- and a final "\n", and read back with `splitlines`.
use Prim.Native.Char.{Char, code}
use text.Mathlib.TextLemmas.{nil-append, cons-append, append_assoc}
use unikernal_honeynet.Base.{
  String, Bool, false, ◌||◌, ◌&&◌, List, [], ◌∷◌, ◌≡◌, ◌∙◌, ap, refl, arith, ◌==◌, leb,
  if◌then◌else◌, join, ◌<>◌, All,
}

-- The characters at which `str.splitlines` ends a line.
abbrev pub is_break : Char → Bool
is_break c =
    leb 10 (code c) && leb (code c) 13
    || (leb 28 (code c) && leb (code c) 30)
    || code c == 133
    || (leb 8232 (code c) && leb (code c) 8233)

begins_lf : String → Bool
begins_lf String.[] = false
begins_lf (String.◌∷◌ c s) = code c == 10

cons_head : Char → List String → List String
cons_head c [] = String.◌∷◌ c "" ∷ []
cons_head c (line ∷ rest) = String.◌∷◌ c line ∷ rest

-- A carriage return before a line feed ends no line of its own.
unfoldable pub splitlines : String → List String
unfolding cons_head begins_lf
splitlines String.[] = []
splitlines (String.◌∷◌ c s) =
    let rest = splitlines s in
    if code c == 13 && begins_lf s then rest else if is_break c then "" ∷ rest else cons_head c rest

-- "\n".join(lines) + ("\n" if lines else "")
unfoldable pub unlines : List String → String
unlines [] = ""
unlines (x ∷ xs) = join "\n" (x ∷ xs) <> "\n"

-- No character of the line ends a line.
abbrev pub IsLine : String → Type 0
IsLine String.[] = Unit
IsLine (String.◌∷◌ c s) = (is_break c ≡ false) × IsLine s

splitlines-line :
    (x rest : String) → IsLine x → splitlines (x <> ("\n" <> rest)) ≡ x ∷ splitlines rest
unfolding splitlines ◌<>◌
splitlines-line String.[] rest h = rw (nil-append, cons-append, nil-append) (ground arith)
splitlines-line (String.◌∷◌ c s) rest h =
    rw cons-append (ground (arith, splitlines-line s rest h.1))

splitlines-join :
    (x : String) (xs : List String)
    → All IsLine (x ∷ xs)
    → splitlines (join "\n" (x ∷ xs) <> "\n") ≡ x ∷ xs
unfolding splitlines join ◌<>◌
splitlines-join x [] h = splitlines-line x "" h.0
splitlines-join x (y ∷ ys) h =
    let tail : String = join "\n" (y ∷ ys) in
    ap splitlines
      (append_assoc x ("\n" <> tail) "\n" ∙ ap (λ t. x <> t) (append_assoc "\n" tail "\n"))
    ∙ splitlines-line x (tail <> "\n") h.0
    ∙ ap (λ ls. x ∷ ls) (splitlines-join y ys h.1)

-- Reading back what was written gives the lines that were written, if none of them has a character
-- that ends a line.
pub splitlines-unlines : (xs : List String) → All IsLine xs → splitlines (unlines xs) ≡ xs
unfolding unlines
splitlines-unlines [] h = unfold splitlines in refl
splitlines-unlines (x ∷ xs) h = splitlines-join x xs h
