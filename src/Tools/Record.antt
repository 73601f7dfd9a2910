-- ===== src/Tools/Record.antt =====
-- pkg/tools/auth.go: the two files of `key=value` lines. The file system is a parameter: what opening
-- and writing return, and what a file holds when a text was written over its start.
pub mod RoundTrip
use Prim.Native.String.{[], ◌∷◌, ◌++◌}
use Prim.Native.Char.{code}
use mathlib.Core.List.{List}
use chaosblade_box_agent.Prelude.{
  String, Bool, true, false, ◌||◌, ◌⊎◌, inl, inr, Option, none, some, ◌==◌, str_eq, if◌then◌else◌,
}
use chaosblade_box_agent.Prelude.Dict.{Dict, insert, get}
use chaosblade_box_agent.Prelude.Text.{trim_space, split_lines}
use chaosblade_box_agent.Tools.Auth.{Keys}

abbrev pub app_instance_key : String
app_instance_key = "appInstance"

abbrev pub app_group_key : String
app_group_key = "appGroup"

-- `open_error path` and `write_error line` are the errors of `os.OpenFile` and of `WriteString`, none
-- for success; `write_error` says what reached the file as well. `read_error path` is the one of
-- `ioutil.ReadFile`.
pub record Disk : Type 0 where
  pub open_error : String → Option String
  pub write : String → String × Option String
  pub overwrite : String → String → String
  pub read_error : String → Option String
  pub app_file : String
  pub cert_file : String

-- the loop over the entries: what was written, and the error that ended it
unfoldable pub write_entries : Disk → String → Dict String → String × Option String
write_entries disk written List.[] = (written, none)
write_entries disk written (List.◌∷◌ (key, value) entries) =
    let (text, err) = disk.write (key ++ "=" ++ value ++ "\n") in
    let written = written ++ text in
    let rest = write_entries disk written entries in
    elim err [ some e ↦ (written, some e) | none ↦ rest ]

-- `RecordMapToFile`: the files, by path, and the error
unfoldable pub record_map_to_file :
    Disk → Dict String → Dict String → String → Bool → Dict String × Option String
unfolding write_entries insert get
record_map_to_file disk files List.[] path truncate = (files, none)
record_map_to_file disk files (List.◌∷◌ entry entries) path truncate = elim (disk.open_error path) [
  | some err ↦ (files, some err)
  | none ↦
      let old = if truncate then "" else get files path in
      let (written, err) = write_entries disk "" (List.◌∷◌ entry entries) in
      (insert files path (disk.overwrite old written), err)
]

-- `RecordSecretKeyToFile`, with the keys of the package and in one of the two orders in which
-- `range` may meet the entries
unfoldable pub record_secret_key_to_file :
    Disk → Dict String × Keys → String → String → (Dict String × Keys) × Option String
unfolding record_map_to_file
record_secret_key_to_file disk (files, keys) access_key secret_key =
    if str_eq access_key "" || str_eq secret_key ""
    then ((files, keys), some "accessKey or secretKey is empty")
    else let (files', err) =
        record_map_to_file disk files
          (List.◌∷◌ ("AK", access_key) (List.◌∷◌ ("SK", secret_key) List.[])) disk.cert_file true in
      elim err [
        | some e ↦ ((files', keys), some e)
        | none ↦ (
          (files', record { local_access_key = access_key; local_secure_key = secret_key }),
          none,
        )
      ]

-- the map of `RecordApplicationToFile`, in one of the two orders in which `range` may meet it
unfoldable pub application_entries : Bool → String → String → Dict String
application_entries true app_instance app_group =
    List.◌∷◌ (app_instance_key, app_instance) (List.◌∷◌ (app_group_key, app_group) List.[])
application_entries false app_instance app_group =
    List.◌∷◌ (app_group_key, app_group) (List.◌∷◌ (app_instance_key, app_instance) List.[])

-- `RecordApplicationToFile`
unfoldable pub record_application_to_file :
    Disk → Bool → Dict String → String → String → Bool → Dict String × Option String
unfolding record_map_to_file application_entries
record_application_to_file disk order files app_instance app_group truncate =
    record_map_to_file disk files (application_entries order app_instance app_group) disk.app_file
      truncate

-- `strings.SplitN(s, "=", 2)` with both parts
unfoldable pub cut_delimiter : String → Option (String × String)
cut_delimiter [] = none
cut_delimiter (c ∷ s) =
    let rest = cut_delimiter s in
    if code c == b'='
    then some ("", s)
    else elim rest [ none ↦ none | some kv ↦ some (c ∷ kv.0, kv.1) ]

-- one line of the loop of `ReadAppInfoFromFile`
unfoldable pub read_line : String × String → String → String × String
unfolding cut_delimiter
read_line (app_instance, app_group) line = elim (cut_delimiter line) [
  | none ↦ (app_instance, app_group)
  | some kv ↦
      if str_eq kv.0 app_instance_key
      then (kv.1, app_group)
      else if str_eq kv.0 app_group_key
      then (app_instance, kv.1)
      else (app_instance, app_group)
]

unfoldable pub read_lines : String × String → List String → String × String
unfolding read_line
read_lines info List.[] = info
read_lines info (List.◌∷◌ line others) = read_lines (read_line info line) others

-- `ReadAppInfoFromFile`; a split text has one line at least
unfoldable pub read_app_info_from_file : Disk → Dict String → String ⊎ (String × String)
unfolding trim_space split_lines read_lines get
read_app_info_from_file disk files = elim (disk.read_error disk.app_file) [
  | some err ↦ inl err
  | none ↦
      let (line, others) = split_lines (trim_space (get files disk.app_file)) in
      inr (read_lines ("", "") (List.◌∷◌ line others))
]
