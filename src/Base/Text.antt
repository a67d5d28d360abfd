-- ===== src/Base/Text.antt =====
-- Python's string methods, on texts whose letters are ASCII: lower, upper, strip, `in`, join.
use Prim.Native.Nat.{◌-◌}
use Prim.Native.Char.{Char, code}
use Prim.Native.String.{String, char_at, find, len}
use Prim.Native.String
use mathlib.Core.Bool.{Bool, true, false, ◌&&◌, ◌||◌}
use mathlib.Core.List.{List, [], ◌∷◌}
use mathlib.Core.Path.{◌≡◌}
use text.Mathlib.TextLemmas.{nil-append, cons-append, append_assoc}
use text.Mathlib.Text.{◌==◌ as str_eq}
use unikernal_honeynet.Base.Tests.{leb, if◌then◌else◌}

lower_char : Char → Char
lower_char c =
    if leb b'A' (code c) && leb (code c) b'Z'
    then char_at "abcdefghijklmnopqrstuvwxyz" (code c - 65)
    else c

upper_char : Char → Char
upper_char c =
    if leb b'a' (code c) && leb (code c) b'z'
    then char_at "ABCDEFGHIJKLMNOPQRSTUVWXYZ" (code c - 97)
    else c

unfoldable pub lower : String → String
unfolding lower_char
lower String.[] = ""
lower (String.◌∷◌ c s) = String.◌∷◌ (lower_char c) (lower s)

unfoldable pub upper : String → String
unfolding upper_char
upper String.[] = ""
upper (String.◌∷◌ c s) = String.◌∷◌ (upper_char c) (upper s)

-- Tab to carriage return, the four separators and the space.
is_space : Char → Bool
is_space c = leb 9 (code c) && leb (code c) 13 || (leb 28 (code c) && leb (code c) 32)

strip_left : String → String
strip_left String.[] = ""
strip_left (String.◌∷◌ c s) = let rest = strip_left s in if is_space c then rest else String.◌∷◌ c s

strip_right : String → String
strip_right String.[] = ""
strip_right (String.◌∷◌ c s) =
    let rest = strip_right s in if is_space c && str_eq rest "" then "" else String.◌∷◌ c rest

unfoldable pub strip : String → String
unfolding strip_left strip_right is_space
strip s = strip_right (strip_left s)

-- `needle in hay`.
unfoldable pub contains : String → String → Bool
contains needle hay = leb (find hay needle) (len hay)

infixr 65 ◌<>◌
unfoldable pub ◌<>◌ : String → String → String
s <> t = String.◌++◌ s t

pub nil_text : (s : String) → "" <> s ≡ s
unfolding ◌<>◌
nil_text s = nil-append s

pub text_assoc : (s t u : String) → (s <> t) <> u ≡ s <> (t <> u)
unfolding ◌<>◌
text_assoc s t u = append_assoc s t u

pub cons_text : (c : Char) (s t : String) → String.◌∷◌ c s <> t ≡ String.◌∷◌ c (s <> t)
unfolding ◌<>◌
cons_text c s t = cons-append c s t

unfoldable pub join : String → List String → String
unfolding ◌<>◌
join sep [] = ""
join sep (x ∷ []) = x
join sep (x ∷ y ∷ ys) = x <> (sep <> join sep (y ∷ ys))

-- `text or default`: the empty text is false.
abbrev pub or_text : String → String → String
or_text s d = if str_eq s "" then d else s

-- `x in xs` for a sequence or set of texts.
abbrev pub elem : String → List String → Bool
elem x [] = false
elem x (y ∷ ys) = str_eq y x || elem x ys

-- The truth value of a text.
abbrev pub truthy : String → Bool
truthy s = if str_eq s "" then false else true
