-- ===== src/Transport/Format.antt =====
-- What `transport.ReturnFail` uses of `fmt.Sprintf`: a format with `%s` verbs, and one operand that is
-- a slice of texts, since the call hands over `args` and not `args...`.
use Prim.Native.Char.{code}
use Prim.Native.String.{String, [], ◌∷◌, ◌++◌}
use mathlib.Core.Path.{◌≡◌, refl}
use mathlib.Core.Bool.{Bool, true, false, ◌&&◌}
use mathlib.Core.List.{List}
use chaosblade_box_agent.Prelude.{◌==◌, if◌then◌else◌}

-- the elements behind the first, each behind a space
spaced : List String → String
spaced List.[] = ""
spaced (List.◌∷◌ a as') = " " ++ a ++ spaced as'

-- a `[]interface{}` of strings under `%s` or `%v`
unfoldable pub print_slice : List String → String
unfolding spaced
print_slice List.[] = "[]"
print_slice (List.◌∷◌ a as') = "[" ++ a ++ spaced as' ++ "]"

-- The second argument says that the one operand has been printed. A verb behind it prints a
-- complaint, and so does an operand that no verb has printed.
unfoldable pub sprintf : String → Bool → List String → String
unfolding print_slice
sprintf [] true args = ""
sprintf [] false args = "%!(EXTRA []interface {}=" ++ print_slice args ++ ")"
sprintf (c ∷ []) used args = c ∷ sprintf [] used args
sprintf (c ∷ d ∷ s) used args =
    let verb = sprintf s true args in
    let copy = c ∷ sprintf (d ∷ s) used args in
    if (code c == b'%') && (code d == b's')
    then (if used then "%!s(MISSING)" ++ verb else print_slice args ++ verb)
    else copy

sprintf_tests :
    (sprintf "`%s`: ctl file not found" false (List.◌∷◌ "x" List.[]) ≡ "`[x]`: ctl file not found")
    × (sprintf "`%s` failed, err: %s" false (List.◌∷◌ "x" (List.◌∷◌ "y" List.[]))
        ≡ "`[x y]` failed, err: %!s(MISSING)")
    × (sprintf "closed" false List.[] ≡ "closed%!(EXTRA []interface {}=[])")
unfolding sprintf
sprintf_tests = (refl, refl, refl)
