-- ===== src/Photo/Ext.antt =====
-- `normalizeExt` and `isAllowedExt` of internal/api/handlers/students_photo.go.
use student_system_go.Common.{
  ℕ, code, leb, ◌==◌, ◌≡◌, refl, String, Bool, ◌&&◌, ◌||◌, if◌then◌else◌,
}
use Prim.Native.Char.{Char}
use Prim.Native.String.{[], ◌∷◌}
use student_system_go.Common.Text.{same, ◌<>◌, has_prefix}

-- `unicode.IsSpace`
abbrev is_space : ℕ → Bool
is_space c =
    (leb 9 c && leb c 13)
    || c == 32
    || c == 0x85
    || c == 0xa0
    || c == 0x1680
    || (leb 0x2000 c && leb c 0x200a)
    || c == 0x2028
    || c == 0x2029
    || c == 0x202f
    || c == 0x205f
    || c == 0x3000

unfoldable pub trim_left : String → String
trim_left [] = []
trim_left (c ∷ s) = if is_space (code c) then trim_left s else c ∷ s

unfoldable pub trim_right : String → String
trim_right [] = []
trim_right (c ∷ s) =
    let rest = trim_right s in if is_space (code c) && same rest "" then [] else c ∷ rest

abbrev lower_letter : Char → Char
lower_letter c =
    if code c == b'A'
    then "a"
    else if code c == b'B'
    then "b"
    else if code c == b'C'
    then "c"
    else if code c == b'D'
    then "d"
    else if code c == b'E'
    then "e"
    else if code c == b'F'
    then "f"
    else if code c == b'G'
    then "g"
    else if code c == b'H'
    then "h"
    else if code c == b'I'
    then "i"
    else if code c == b'J'
    then "j"
    else if code c == b'K'
    then "k"
    else if code c == b'L'
    then "l"
    else if code c == b'M'
    then "m"
    else if code c == b'N'
    then "n"
    else if code c == b'O'
    then "o"
    else if code c == b'P'
    then "p"
    else if code c == b'Q'
    then "q"
    else if code c == b'R'
    then "r"
    else if code c == b'S'
    then "s"
    else if code c == b'T'
    then "t"
    else if code c == b'U'
    then "u"
    else if code c == b'V'
    then "v"
    else if code c == b'W'
    then "w"
    else if code c == b'X'
    then "x"
    else if code c == b'Y'
    then "y"
    else if code c == b'Z'
    then "z"
    else c

-- `strings.ToLower` on ASCII. Beyond it, only two letters are lowered to ASCII letters, and those are
-- in no extension that is allowed.
unfoldable pub to_lower : String → String
to_lower [] = []
to_lower (c ∷ s) = lower_letter c ∷ to_lower s

-- Where the search from the right for a dot has come to.
pub data Search : Type 0 where
  open_end : Search
  at_slash : Search
  from_dot : String → Search

abbrev step : Char → String → Search → Search
step c s open_end =
    if code c == b'.' then from_dot (c ∷ s) else if code c == b'/' then at_slash else open_end
step c s at_slash = at_slash
step c s (from_dot e) = from_dot e

search : String → Search
search [] = open_end
search (c ∷ s) = step c s (search s)

abbrev found_ext : Search → String
found_ext (from_dot e) = e
found_ext _ = ""

-- `filepath.Ext`
unfoldable pub ext : String → String
unfolding search
ext s = found_ext (search s)

abbrev dotted : String → String → String
unfolding has_prefix
dotted s e = if same e "" then (if has_prefix s "." then s else "." <> s) else e

abbrev normalized : String → String
unfolding ext to_lower has_prefix
normalized s = if same s "" then "" else to_lower (dotted s (ext s))

-- `normalizeExt`
unfoldable pub normalize_ext : String → String
unfolding trim_left trim_right ext to_lower has_prefix
normalize_ext s = normalized (trim_right (trim_left s))

-- `isAllowedExt`
unfoldable pub is_allowed_ext : String → Bool
is_allowed_ext e = same e ".jpg" || same e ".jpeg" || same e ".png" || same e ".webp"

ext_tests :
    (normalize_ext "" ≡ "")
    × (normalize_ext "jpg" ≡ ".jpg")
    × (normalize_ext ".JPG" ≡ ".jpg")
    × (normalize_ext " image.png " ≡ ".png")
    × (normalize_ext "a.b/c" ≡ ".a.b/c")
unfolding normalize_ext
ext_tests = (refl, refl, refl, refl, refl)
