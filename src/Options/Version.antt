-- ===== src/Options/Version.antt =====
-- pkg/options/bladeoptions.go: the version in what `blade version` prints.
use chaosblade_box_agent.Prelude.{
  ◌≡◌, ◌↔◌, refl, ap, ◌⊎◌, inl, inr, arith, String, Bool, true, All, List-cases, ◌++◌, Option, none,
  some, List, [], ◌∷◌, str_eq, if◌then◌else◌, eq_iff, Option-cases, Bool-cases,
}
use chaosblade_box_agent.Prelude.Text.{
  trim_space, split_lines, split_colons, has_prefix, has_lower_prefix, fields,
}
use Prim.Native.String.{◌++◌ as str_append}

-- the version in a line with one colon, if there is one
unfoldable pub version_behind_colon : String → Option String
version_behind_colon line = elim (split_colons line).1 [
  | [] ↦ none
  | part ∷ more ↦ elim more [
    | part' ∷ more' ↦ none
    | [] ↦
        let version = trim_space part in
        if str_eq version ""
        then none
        else elim (fields version) [ [] ↦ none | word ∷ rest ↦ some word ]
  ]
]

-- the version in a line of the first form, and of the second
unfoldable pub first_form : String → Option String
unfolding version_behind_colon
first_form line =
    let trimmed = trim_space line in
    if has_prefix trimmed "Version:" then version_behind_colon trimmed else none

unfoldable pub second_form : String → Option String
unfolding version_behind_colon
second_form line =
    let trimmed = trim_space line in
    if has_lower_prefix trimmed "version:" then version_behind_colon trimmed else none

-- a loop over the lines
unfoldable pub first_version : (String → Option String) → List String → Option String
first_version form [] = none
first_version form (line ∷ lines) =
    let later = first_version form lines in
    elim (form line) [ some version ↦ some version | none ↦ later ]

-- the lines of the trimmed output
abbrev pub lines_of : String → List String
lines_of output = let (line, others) = split_lines (trim_space output) in line ∷ others

-- `parseVersionFromOutput`; an error is its message, on the right
unfoldable pub parse_version_from_output : String → String ⊎ String
unfolding first_version first_form second_form
parse_version_from_output output =
    if str_eq (trim_space output) ""
    then inr "cannot get blade version"
    else elim (first_version first_form (lines_of output)) [
      | some version ↦ inl version
      | none ↦ elim (first_version second_form (lines_of output)) [
        | some version ↦ inl version
        | none ↦ inr (str_append "cannot parse version info from output. " output)
      ]
    ]

-- `GetChaosBladeVersion`, with what running `blade version` returns: the output, or an error's message
unfoldable pub get_chaosblade_version : Bool → String ⊎ String → String ⊎ String
unfolding parse_version_from_output
get_chaosblade_version exists ran =
    if exists
    then elim ran [ inr err_msg ↦ inr err_msg | inl result ↦ parse_version_from_output result ]
    else inr "blade bin file not exist"

-- a line that gives a version: without the white space around it it starts as is asked for and has one
-- colon, behind which the version is the first word
abbrev pub Versioned : (String → Bool) → String → String → Type 0
Versioned starts line version =
    (starts (trim_space line) ≡ true)
    × (part : String) × ((split_colons (trim_space line)).1 ≡ part ∷ [])
    × (more : List String) × (fields (trim_space part) ≡ version ∷ more)

abbrev pub Unversioned : (String → Bool) → String → Type 0
Unversioned starts line = (version : String) → Versioned starts line version → ⊥

-- the first line that gives a version gives this one
abbrev pub FirstGives : (String → Bool) → List String → String → Type 0
FirstGives starts lines version =
    (before after : List String) × (line : String) × (lines ≡ before ++ line ∷ after)
    × All (Unversioned starts) before
    × Versioned starts line version

-- the starts of a line of the first form, and of the second, whose letters may be small or large
abbrev pub starts_first : String → Bool
starts_first trimmed = has_prefix trimmed "Version:"

abbrev pub starts_second : String → Bool
starts_second trimmed = has_lower_prefix trimmed "version:"

-- what an output is read as
abbrev pub Reads : String → String ⊎ String → Type 0
Reads output (inl version) =
    FirstGives starts_first (lines_of output) version
    ⊎ (All (Unversioned starts_first) (lines_of output)
        × FirstGives starts_second (lines_of output) version)
Reads output (inr err) =
    (trim_space output ≡ "")
    ⊎ (All (Unversioned starts_first) (lines_of output)
        × All (Unversioned starts_second) (lines_of output))

version_behind_colon_iff :
    (line version : String)
    → (version_behind_colon line ≡ some version) ↔ (
        (part : String) × ((split_colons line).1 ≡ part ∷ [])
        × (more : List String) × (fields (trim_space part) ≡ version ∷ more))
unfolding version_behind_colon fields
version_behind_colon_iff line version = elim (List-cases (split_colons line).1) [
  | inl none_behind ↦ (λ e. absurd (ground arith), λ (part, e, more, f). absurd (ground arith))
  | inr (part, others, behind) ↦ elim (List-cases others) [
    | inr (part', more', two) ↦
        (λ e. absurd (ground arith), λ (part, e, more, f). absurd (ground arith))
    | inl one ↦ elim (Bool-cases (str_eq (trim_space part) "")) [
      | inl blank ↦ (
        λ e. absurd (ground arith),
        λ (part', e, more, f).
            let same : part' ≡ part = ground arith in
            let nothing : trim_space part ≡ "" = (eq_iff (trim_space part) "").0 blank in
            let no_fields : fields (trim_space part) ≡ [] = ap (λ (s : String). fields s) nothing in
            absurd (ground (arith, ap (λ (s : String). fields (trim_space s)) same, no_fields)),
      )
      | inr shown ↦ elim (List-cases (fields (trim_space part))) [
        | inl no_word ↦ (
          λ e. absurd (ground arith),
          λ (part', e, more, f).
              let same : part' ≡ part = ground arith in
              absurd (ground (arith, ap (λ (s : String). fields (trim_space s)) same)),
        )
        | inr (word, rest, words) ↦ (
          λ e. (part, ground arith, rest, ground arith),
          λ (part', e, more, f).
              let same : part' ≡ part = ground arith in
              ground (arith, ap (λ (s : String). fields (trim_space s)) same),
        )
      ]
    ]
  ]
]

-- the form that a test of the line's start gives
abbrev form_of : (String → Bool) → String → Option String
form_of starts line =
    let trimmed = trim_space line in if starts trimmed then version_behind_colon trimmed else none

form_of_iff :
    (starts : String → Bool) (line version : String)
    → (form_of starts line ≡ some version) ↔ Versioned starts line version
form_of_iff starts line version =
    let behind = version_behind_colon_iff (trim_space line) version in
    elim (Bool-cases (starts (trim_space line))) [
      | inl starting ↦ (
        λ e.
            let (part, one, more, words) = behind.0 (ground arith) in
            (starting, part, one, more, words),
        λ (s, part, one, more, words). rw starting (behind.1 (part, one, more, words)),
      )
      | inr other ↦ (λ e. absurd (ground arith), λ (s, part, one, more, words). cc)
    ]

first_version-gives :
    (starts : String → Bool) (lines : List String)
    → ((version : String) × (first_version (form_of starts) lines ≡ some version)
        × FirstGives starts lines version)
      ⊎ ((first_version (form_of starts) lines ≡ none) × All (Unversioned starts) lines)
unfolding first_version
first_version-gives starts [] = inr (refl, tt)
first_version-gives starts (line ∷ lines) = elim (Option-cases (form_of starts line)) [
  | inr (version, e) ↦
      inl
        (version, ground arith, ([], lines, line, refl, tt, (form_of_iff starts line version).0 e))
  | inl absent ↦
      let unversioned : Unversioned starts line =
        λ version given. cc ((form_of_iff starts line version).1 given, absent) in
      elim (first_version-gives starts lines) [
        | inl (version, e, (before, after, found, at, earlier, given)) ↦ inl (
          version,
          ground arith,
          (
            line ∷ before,
            after,
            found,
            ap (λ (l : List String). line ∷ l) at,
            (unversioned, earlier),
            given,
          ),
        )
        | inr (e, lacks) ↦ inr (ground arith, (unversioned, lacks))
      ]
]

-- A version that is read is that of the first line that gives one and starts with `Version:`, or, where
-- there is no such line, of the first that gives one and starts with `version:` in small or large
-- letters, where a line gives a version by one colon in all and the first word behind it, and the white
-- space around the line is left out. An error means that the output is blank or that no line of either
-- start gives a version.
pub parse_version_from_output-Reads :
    (output : String) → Reads output (parse_version_from_output output)
unfolding parse_version_from_output first_form second_form
parse_version_from_output-Reads output = elim (Bool-cases (str_eq (trim_space output) "")) [
  | inl blank ↦ rw blank (inl ((eq_iff (trim_space output) "").0 blank))
  | inr shown ↦ rw shown (elim (first_version-gives starts_first (lines_of output)) [
    | inl (version, e, gives) ↦ rw e (inl gives)
    | inr (e, lacks) ↦ rw e (elim (first_version-gives starts_second (lines_of output)) [
      | inl (version, e', gives) ↦ rw e' (inr (lacks, gives))
      | inr (e', lacks') ↦ rw e' (inr (lacks, lacks'))
    ])
  ])
]
