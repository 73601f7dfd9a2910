-- ===== src/Tools/Record/RoundTrip.antt =====
-- What `ReadAppInfoFromFile` of pkg/tools/auth.go makes of what `RecordApplicationToFile` wrote.
use Prim.Native.Char.{code, Char}
use Prim.Native.String.{[], ◌∷◌, ◌++◌}
use mathlib.Core.List.{List}
use text.Mathlib.TextLemmas.{append_assoc, nil-append, cons-append, append-eq-nil_iff, cons-ne-nil}
use chaosblade_box_agent.Prelude.{
  ℕ, ◌≡◌, ◌≢◌, refl, sym, ap, ◌∙◌, inl, inr, String, Bool, true, false, not, ◌&&◌, Option, none,
  some, arith, ◌==◌, str_eq, eq_iff, eq_refl, Bool-cases,
}
use chaosblade_box_agent.Prelude.Text.{split_lines, is_space, trim_left, trim_right, trim_space}
use chaosblade_box_agent.Prelude.Dict.{Dict, get, insert, get-insert}
use chaosblade_box_agent.Tools.Record.{
  Disk, app_instance_key, app_group_key, write_entries, record_map_to_file, application_entries,
  record_application_to_file, cut_delimiter, read_line, read_lines, read_app_info_from_file,
}

single-append : (c : Char) (t : String) → (c ∷ []) ++ t ≡ c ∷ t
single-append c t = cons-append c [] t ∙ ap (λ (s : String). c ∷ s) (nil-append t)

newline-append : (t : String) → "\n" ++ t ≡ "\n" ∷ t
newline-append t = single-append "\n" t

equals-append : (t : String) → "=" ++ t ≡ "=" ∷ t
equals-append t = single-append "=" t

-- no code point of the text is the given one
unfoldable pub lacks : ℕ → String → Bool
lacks d [] = true
lacks d (c ∷ s) = not (code c == d) && lacks d s

trim_right-append : (s t : String) → trim_right t ≡ t → t ≢ "" → trim_right (s ++ t) ≡ s ++ t
unfolding trim_right
trim_right-append [] t h visible = rw (nil-append t) h
trim_right-append (c ∷ s) t h visible =
    rw (cons-append c s t, trim_right-append s t h visible)
      (elim (Bool-cases (str_eq (s ++ t) "")) [
        | inl blank ↦ absurd (visible (append-eq-nil_iff.0 ((eq_iff (s ++ t) "").0 blank)).1)
        | inr shown ↦ rw shown refl
      ])

trim_right-newline : (s : String) → trim_right (s ++ "\n") ≡ trim_right s
unfolding trim_right is_space
trim_right-newline [] = refl
trim_right-newline (c ∷ s) = rw (cons-append c s "\n", trim_right-newline s) refl

split-append :
    (l t : String)
    → lacks b'\n' l ≡ true
    → split_lines (l ++ ("\n" ++ t)) ≡ (l, List.◌∷◌ (split_lines t).0 (split_lines t).1)
unfolding split_lines lacks
split-append [] t h = rw (nil-append ("\n" ++ t), newline-append t) refl
split-append (c ∷ l) t h = rw (cons-append c l ("\n" ++ t)) (ground (arith, split-append l t))

split-line : (l : String) → lacks b'\n' l ≡ true → split_lines l ≡ (l, List.[])
unfolding split_lines lacks
split-line [] h = refl
split-line (c ∷ l) h = ground (arith, split-line l)

cut-append : (k v : String) → lacks b'=' k ≡ true → cut_delimiter (k ++ ("=" ++ v)) ≡ some (k, v)
unfolding cut_delimiter lacks
cut-append [] v h = rw (nil-append ("=" ++ v), equals-append v) refl
cut-append (c ∷ k) v h = rw (cons-append c k ("=" ++ v)) (ground (arith, cut-append k v))

is_line-append : (s t : String) → lacks b'\n' (s ++ t) ≡ lacks b'\n' s && lacks b'\n' t
unfolding lacks
is_line-append [] t = rw (nil-append t) refl
is_line-append (c ∷ s) t = rw (cons-append c s t) (ground (arith, is_line-append s t))

-- a text whose first code point is no white space
unfoldable pub starts_visible : String → Bool
starts_visible [] = false
starts_visible (c ∷ s) = not (is_space (code c))

trim_left-visible : (k t : String) → starts_visible k ≡ true → trim_left (k ++ t) ≡ k ++ t
unfolding starts_visible trim_left
trim_left-visible [] t h = absurd (ground arith)
trim_left-visible (c ∷ k) t h = rw (cons-append c k t) (elim (Bool-cases (is_space (code c))) [
  | inl blank ↦ absurd (ground arith)
  | inr shown ↦ rw shown refl
])

trim_right-assign : (v : String) → trim_right v ≡ v → trim_right ("=" ++ v) ≡ "=" ++ v
unfolding trim_right is_space
trim_right-assign v h = rw (equals-append v) (
    rw h
      (elim (Bool-cases (str_eq v "")) [ inl blank ↦ rw blank refl | inr shown ↦ rw shown refl ]))

abbrev assigned : String → String → String
assigned k v = k ++ ("=" ++ v)

-- what the file holds of two entries
abbrev two_lines : String → String → String → String → String
two_lines j v k w = (j ++ ("=" ++ (v ++ "\n"))) ++ (k ++ ("=" ++ (w ++ "\n")))

two_lines-append :
    (j v k w : String) → two_lines j v k w ≡ (assigned j v ++ ("\n" ++ assigned k w)) ++ "\n"
two_lines-append j v k w = simp append_assoc

assigned-ne-nil : (k v : String) → assigned k v ≢ ""
assigned-ne-nil k v e = cons-ne-nil "=" v (sym (equals-append v) ∙ (append-eq-nil_iff.0 e).1)

module _ (j v k w : String) (begins : starts_visible j ≡ true) (ends : trim_right w ≡ w) where
  left-two_lines :
      trim_left ((assigned j v ++ ("\n" ++ assigned k w)) ++ "\n")
      ≡ (assigned j v ++ ("\n" ++ assigned k w)) ++ "\n"
  left-two_lines =
      let rest = ("=" ++ v) ++ (("\n" ++ assigned k w) ++ "\n") in
      let e : j ++ rest ≡ (assigned j v ++ ("\n" ++ assigned k w)) ++ "\n" = simp append_assoc in
      sym (ap trim_left e) ∙ trim_left-visible j rest begins ∙ e

  right-two_lines :
      trim_right (assigned j v ++ ("\n" ++ assigned k w)) ≡ assigned j v ++ ("\n" ++ assigned k w)
  right-two_lines =
      trim_right-append (assigned j v) ("\n" ++ assigned k w)
        (trim_right-append "\n" (assigned k w)
          (trim_right-append k ("=" ++ w) (trim_right-assign w ends)
            (λ e. cons-ne-nil "=" w (sym (equals-append w) ∙ e)))
          (assigned-ne-nil k w))
        (λ e. assigned-ne-nil k w (append-eq-nil_iff.0 e).1)

  trim-two_lines : trim_space (two_lines j v k w) ≡ assigned j v ++ ("\n" ++ assigned k w)
  unfolding trim_space
  trim-two_lines =
      ap (λ (s : String). trim_right (trim_left s)) (two_lines-append j v k w)
      ∙ ap trim_right (left-two_lines)
      ∙ trim_right-newline (assigned j v ++ ("\n" ++ assigned k w))
      ∙ right-two_lines

  split-two_lines :
      lacks b'\n' (assigned j v) ≡ true
      → lacks b'\n' (assigned k w) ≡ true
      → split_lines (trim_space (two_lines j v k w))
        ≡ (assigned j v, List.◌∷◌ (assigned k w) List.[])
  split-two_lines first second =
      rw
        (
          trim-two_lines,
          split-append (assigned j v) (assigned k w) first,
          split-line (assigned k w) second,
        )
        refl

lacks-equals : lacks b'\n' "=" ≡ true
unfolding lacks
lacks-equals = refl

lacks-assigned :
    (k v : String) → lacks b'\n' k ≡ true → lacks b'\n' v ≡ true → lacks b'\n' (assigned k v) ≡ true
lacks-assigned k v hk hv =
    is_line-append k ("=" ++ v)
    ∙ ap (λ (b : Bool). lacks b'\n' k && b) (is_line-append "=" v)
    ∙ ground (arith, lacks-equals)

lacks_keys :
    (lacks b'=' app_instance_key ≡ true)
    × (lacks b'=' app_group_key ≡ true)
    × (lacks b'\n' app_instance_key ≡ true)
    × (lacks b'\n' app_group_key ≡ true)
    × (starts_visible app_instance_key ≡ true)
    × (starts_visible app_group_key ≡ true)
unfolding lacks starts_visible is_space
lacks_keys = (refl, refl, refl, refl, refl, refl)

read_instance :
    (info : String × String) (i : String)
    → read_line info (assigned app_instance_key i) ≡ (i, info.1)
unfolding read_line
read_instance info i = ground (arith, cut-append app_instance_key i lacks_keys.0)

read_group :
    (info : String × String) (g : String) → read_line info (assigned app_group_key g) ≡ (info.0, g)
unfolding read_line
read_group info g = ground (arith, cut-append app_group_key g lacks_keys.1)

module _ (disk : Disk) (files : Dict String) (opens : disk.open_error disk.app_file ≡ none)
    (writes : (text : String) → disk.write text ≡ (text, none))
    (empty : (text : String) → disk.overwrite "" text ≡ text)
    (reads : disk.read_error disk.app_file ≡ none) where
  write_two :
      (j v k w : String)
      → write_entries disk "" (List.◌∷◌ (j, v) (List.◌∷◌ (k, w) List.[]))
        ≡ (two_lines j v k w, none)
  unfolding write_entries
  write_two j v k w =
      let first = j ++ ("=" ++ (v ++ "\n")) in
      let second = k ++ ("=" ++ (w ++ "\n")) in
      ground (arith, writes first, writes second, nil-append first)

  recorded :
      (j v k w : String)
      → record_map_to_file disk files (List.◌∷◌ (j, v) (List.◌∷◌ (k, w) List.[])) disk.app_file true
        ≡ (insert files disk.app_file (two_lines j v k w), none)
  unfolding record_map_to_file
  recorded j v k w = ground (arith, write_two j v k w, empty (two_lines j v k w))

  read_back :
      (files' : Dict String) (j v k w : String)
      → get files' disk.app_file ≡ two_lines j v k w
      → starts_visible j ≡ true
      → trim_right w ≡ w
      → lacks b'\n' (assigned j v) ≡ true
      → lacks b'\n' (assigned k w) ≡ true
      → read_app_info_from_file disk files'
        ≡ inr (read_lines ("", "") (List.◌∷◌ (assigned j v) (List.◌∷◌ (assigned k w) List.[])))
  unfolding read_app_info_from_file
  read_back files' j v k w content begins ends first second =
      ground (arith, split-two_lines j v k w begins ends first second)

  -- the two steps together
  written_read :
      (j v k w : String)
      → starts_visible j ≡ true
      → trim_right w ≡ w
      → lacks b'\n' (assigned j v) ≡ true
      → lacks b'\n' (assigned k w) ≡ true
      → let (files', err) =
          record_map_to_file disk files
            (List.◌∷◌ (j, v) (List.◌∷◌ (k, w) List.[]))
            disk.app_file
            true in
        (err ≡ none)
        × (read_app_info_from_file disk files'
            ≡ inr (read_lines ("", "") (List.◌∷◌ (assigned j v) (List.◌∷◌ (assigned k w) List.[]))))
  written_read j v k w begins ends first second =
      let text = two_lines j v k w in
      let path = disk.app_file in
      let e = recorded j v k w in
      (
        ap (λ (r : Dict String × Option String). r.1) e,
        ap (λ (r : Dict String × Option String). read_app_info_from_file disk r.0) e
            ∙ read_back (insert files path text) j v k w
                (ground (arith, get-insert files path path text, eq_refl path)) begins ends first
                second,
      )

-- With a disk that opens, writes whole texts and reads, and with an application and a group that hold
-- no line break and end in no white space, what `RecordApplicationToFile` wrote over the old file is
-- what `ReadAppInfoFromFile` returns, whichever of the two entries was written first.
pub read_app_info-record_application :
    (disk : Disk) (order : Bool) (files : Dict String) (app_instance app_group : String)
    → disk.open_error disk.app_file ≡ none
    → ((text : String) → disk.write text ≡ (text, none))
    → ((text : String) → disk.overwrite "" text ≡ text)
    → disk.read_error disk.app_file ≡ none
    → trim_right app_instance ≡ app_instance
    → trim_right app_group ≡ app_group
    → lacks b'\n' app_instance ≡ true
    → lacks b'\n' app_group ≡ true
    → let (files', err) = record_application_to_file disk order files app_instance app_group true in
      (err ≡ none) × (read_app_info_from_file disk files' ≡ inr (app_instance, app_group))
unfolding record_application_to_file application_entries read_lines
read_app_info-record_application disk true files i g opens writes empty reads ends_i ends_g line_i
      line_g =
    let (err, e) =
      written_read disk files opens writes empty reads app_instance_key i app_group_key g
        lacks_keys.4 ends_g (lacks-assigned app_instance_key i lacks_keys.2 line_i)
        (lacks-assigned app_group_key g lacks_keys.3 line_g) in
    (err, e ∙ ground (arith, read_instance ("", "") i, read_group (i, "") g))
read_app_info-record_application disk false files i g opens writes empty reads ends_i ends_g line_i
      line_g =
    let (err, e) =
      written_read disk files opens writes empty reads app_group_key g app_instance_key i
        lacks_keys.5 ends_i (lacks-assigned app_group_key g lacks_keys.3 line_g)
        (lacks-assigned app_instance_key i lacks_keys.2 line_i) in
    (err, e ∙ ground (arith, read_instance ("", g) i, read_group ("", "") g))
