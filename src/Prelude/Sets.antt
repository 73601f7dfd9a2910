-- ===== src/Prelude/Sets.antt =====
-- What the program uses of `strings.Join`, `strings.Split` and `sets.String`: texts in lists and in
-- sorted sets.
use Prim.Native.Char.{code}
use Prim.Native.String.{String, [], ◌∷◌, ◌++◌ as str_append}
use mathlib.Core.Path.{◌≡◌, refl}
use mathlib.Core.Bool.{Bool, true, false}
use mathlib.Core.List.{List}
use chaosblade_box_agent.Prelude.Tests.{ltb, ◌==◌, str_eq, if◌then◌else◌}

-- `strings.Join(parts, separator)`
unfoldable pub join : String → List String → String
join separator List.[] = ""
join separator (List.◌∷◌ part List.[]) = part
join separator (List.◌∷◌ part (List.◌∷◌ next rest)) =
    str_append part (str_append separator (join separator (List.◌∷◌ next rest)))

-- the first part of a text and the others, for a separator of one letter
unfoldable pub split_first : String → String → String × List String
split_first separator [] = ("", List.[])
split_first separator (c ∷ s) =
    let (part, others) = split_first separator s in
    if str_eq (c ∷ []) separator then ("", List.◌∷◌ part others) else (c ∷ part, others)

-- `strings.Split(s, separator)` for a separator of one letter
unfoldable pub split : String → String → List String
unfolding split_first
split s separator = let (part, others) = split_first separator s in List.◌∷◌ part others

-- the order of texts, by their code points
unfoldable pub str_lt : String → String → Bool
str_lt s [] = false
str_lt [] (d ∷ t) = true
str_lt (c ∷ s) (d ∷ t) =
    let rest = str_lt s t in
    if ltb (code c) (code d) then true else if code c == code d then rest else false

-- `Insert` of a `sets.String`, whose list is kept as `List()` gives it: sorted, and no text twice
unfoldable pub set_insert : List String → String → List String
unfolding str_lt
set_insert List.[] t = List.◌∷◌ t List.[]
set_insert (List.◌∷◌ s rest) t =
    let later = set_insert rest t in
    if str_eq s t
    then List.◌∷◌ s rest
    else if str_lt t s
    then List.◌∷◌ t (List.◌∷◌ s rest)
    else List.◌∷◌ s later

set_tests :
    (join "," (split "b,a" ",") ≡ "b,a")
    × (set_insert (set_insert (set_insert List.[] "b") "a") "b"
        ≡ List.◌∷◌ "a" (List.◌∷◌ "b" List.[]))
unfolding join split set_insert
set_tests = (refl, refl)
