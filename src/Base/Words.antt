-- ===== src/Base/Words.antt =====
-- `text.strip()`, `text.lower()` and `text.split()`. The white space is that of `str.isspace`; a capital
-- letter outside ASCII is kept as it is, which no comparison of the code can tell: none of the words it
-- compares with is the lower case of such a text.
use Prim.Native.Nat.{◌-◌}
use Prim.Native.Char.{Char, code}
use Prim.Native.String.{String, char_at}
use mathlib.Core.Path.{◌≡◌, refl}
use mathlib.Core.Bool.{Bool, true, false, not, ◌&&◌, ◌||◌}
use mathlib.Core.List.{List, [], ◌∷◌}
use nimbus_mesh_x.Base.Tests.{leb, nat_beq, if◌then◌else◌}

unfoldable pub is_space : Char → Bool
is_space c =
    let n = code c in
    leb 9 n && leb n 13
    || leb 28 n && leb n 32
    || nat_beq n 133
    || nat_beq n 160
    || nat_beq n 5760
    || leb 8192 n && leb n 8202
    || nat_beq n 8232
    || nat_beq n 8233
    || nat_beq n 8239
    || nat_beq n 8287
    || nat_beq n 12288

is_nothing : String → Bool
is_nothing String.[] = true
is_nothing (String.◌∷◌ c s) = false

strip_left : String → String
unfolding is_space
strip_left String.[] = String.[]
strip_left (String.◌∷◌ c s) = let rest = strip_left s in if is_space c then rest else String.◌∷◌ c s

strip_right : String → String
unfolding is_space is_nothing
strip_right String.[] = String.[]
strip_right (String.◌∷◌ c s) =
    let rest = strip_right s in
    if is_space c && is_nothing rest then String.[] else String.◌∷◌ c rest

unfoldable pub strip : String → String
unfolding strip_left strip_right
strip s = strip_right (strip_left s)

lower_char : Char → Char
lower_char c =
    if leb 65 (code c) && leb (code c) 90
    then char_at "abcdefghijklmnopqrstuvwxyz" (code c - 65)
    else c

unfoldable pub lower : String → String
unfolding lower_char
lower String.[] = String.[]
lower (String.◌∷◌ c s) = String.◌∷◌ (lower_char c) (lower s)

-- The text goes on with a character that is no space.
begins_word : String → Bool
unfolding is_space
begins_word String.[] = false
begins_word (String.◌∷◌ c s) = not (is_space c)

add_char : Char → List String → List String
add_char c [] = String.◌∷◌ c String.[] ∷ []
add_char c (w ∷ ws) = String.◌∷◌ c w ∷ ws

-- The words between white space.
unfoldable pub split : String → List String
unfolding is_space begins_word add_char
split String.[] = []
split (String.◌∷◌ c s) =
    let rest = split s in
    if is_space c
    then rest
    else if begins_word s
    then add_char c rest
    else String.◌∷◌ c String.[] ∷ rest

split_example : split " two  words" ≡ "two" ∷ "words" ∷ []
unfolding split
split_example = refl

lower_example : lower (strip " HuMan ") ≡ "human"
unfolding lower strip
lower_example = refl
