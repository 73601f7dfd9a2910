-- ===== src/Prelude/Text.antt =====
-- What the program uses of Go's package strings. A text is its list of code points.
use Prim.Native.Nat.{ℕ, ◌+◌}
use Prim.Native.Char.{code}
use Prim.Native.String.{String, [], ◌∷◌}
use mathlib.Core.Path.{◌≡◌, refl}
use mathlib.Core.Bool.{Bool, true, false, ◌&&◌, ◌||◌}
use mathlib.Core.Option.{Option, none, some}
use mathlib.Core.List.{List}
use chaosblade_box_agent.Prelude.Tests.{leb, ◌==◌, str_eq, if◌then◌else◌}

-- `unicode.IsSpace`
unfoldable pub is_space : ℕ → Bool
is_space c =
    (leb 9 c && leb c 13)
    || c == 32
    || c == 0x85
    || c == 0xa0
    || c == 0x1680
    || (leb 0x2000 c && leb c 0x200a)
    || c == 0x2028
    || c == 0x2029
    || c == 0x202f
    || c == 0x205f
    || c == 0x3000

abbrev push_word : String → List String → List String
push_word w ws = if str_eq w "" then ws else List.◌∷◌ w ws

-- the word at the front, if any, and the words behind it
split_word : String → String × List String
split_word [] = ("", List.[])
split_word (c ∷ s) =
    let (w, ws) = split_word s in if is_space (code c) then ("", push_word w ws) else (c ∷ w, ws)

-- `strings.Fields`
unfoldable pub fields : String → List String
unfolding split_word is_space
fields s = let (w, ws) = split_word s in push_word w ws

-- a letter under `strings.EqualFold`, against a text in ASCII: the Kelvin sign folds to k, and the
-- long s to s
abbrev fold : ℕ → ℕ
fold c =
    if leb b'A' c && leb c b'Z'
    then c + 32
    else if c == 0x212a
    then b'k'
    else if c == 0x17f
    then b's'
    else c

-- `strings.EqualFold(s, t)` for a `t` in ASCII
unfoldable pub equal_fold : String → String → Bool
equal_fold [] [] = true
equal_fold [] (d ∷ t) = false
equal_fold (c ∷ s) [] = false
equal_fold (c ∷ s) (d ∷ t) = (fold (code c) == fold (code d)) && equal_fold s t

-- `strings.HasPrefix(v, "--")`, with `v[2:]`
unfoldable pub after_dashes : String → Option String
after_dashes [] = none
after_dashes (c ∷ []) = none
after_dashes (c ∷ d ∷ s) = if (code c == b'-') && (code d == b'-') then some s else none

-- `strings.Index(s, "{")`, with the text from there on
unfoldable pub from_brace : String → Option String
from_brace [] = none
from_brace (c ∷ s) = let later = from_brace s in if code c == b'{' then some (c ∷ s) else later

-- `strings.TrimSpace`
unfoldable pub trim_left : String → String
unfolding is_space
trim_left [] = ""
trim_left (c ∷ s) = let rest = trim_left s in if is_space (code c) then rest else c ∷ s

unfoldable pub trim_right : String → String
unfolding is_space
trim_right [] = ""
trim_right (c ∷ s) =
    let rest = trim_right s in if str_eq rest "" && is_space (code c) then "" else c ∷ rest

unfoldable pub trim_space : String → String
unfolding trim_left trim_right
trim_space s = trim_right (trim_left s)

-- `strings.Split(s, "\n")`: the first line and the others
unfoldable pub split_lines : String → String × List String
split_lines [] = ("", List.[])
split_lines (c ∷ s) =
    let (line, others) = split_lines s in
    if code c == b'\n' then ("", List.◌∷◌ line others) else (c ∷ line, others)

-- `strings.Split(s, ":")`: the first part and the others
unfoldable pub split_colons : String → String × List String
split_colons [] = ("", List.[])
split_colons (c ∷ s) =
    let (part, others) = split_colons s in
    if code c == b':' then ("", List.◌∷◌ part others) else (c ∷ part, others)

-- `strings.HasPrefix`
unfoldable pub has_prefix : String → String → Bool
has_prefix s [] = true
has_prefix [] (d ∷ t) = false
has_prefix (c ∷ s) (d ∷ t) = (code c == code d) && has_prefix s t

-- `strings.HasPrefix(strings.ToLower(s), t)` for a `t` in ASCII: the Kelvin sign and the capital I with
-- a dot have lower letters in ASCII
abbrev lower : ℕ → ℕ
lower c =
    if leb b'A' c && leb c b'Z'
    then c + 32
    else if c == 0x212a
    then b'k'
    else if c == 0x130
    then b'i'
    else c

unfoldable pub has_lower_prefix : String → String → Bool
has_lower_prefix s [] = true
has_lower_prefix [] (d ∷ t) = false
has_lower_prefix (c ∷ s) (d ∷ t) = (lower (code c) == code d) && has_lower_prefix s t

-- `strings.Split(s, ",")[0]`
unfoldable pub before_comma : String → String
before_comma [] = ""
before_comma (c ∷ s) = let rest = before_comma s in if code c == b',' then "" else c ∷ rest

text_tests :
    (fields "  create k8s  --async "
      ≡ List.◌∷◌ "create" (List.◌∷◌ "k8s" (List.◌∷◌ "--async" List.[])))
    × (equal_fold "K8S" "k8s" ≡ true)
    × (after_dashes "--a" ≡ some "a")
    × (from_brace "log {x}" ≡ some "{x}")
unfolding fields equal_fold after_dashes from_brace
text_tests = (refl, refl, refl, refl)
