-- ===== src/Handler/Litmus/Cluster.antt =====
-- What web/handler/litmuschaos asks of Kubernetes, of the disk and of the hub. The calls that were
-- made are kept, and a reply depends on the calls before it.
use Prim.Native.String.{String, [] as nil, ◌∷◌ as cons, ◌++◌ as str_append}
use Prim.Native.Nat.{ℕ, zero, suc}
use Prim.Native.Char.{code}
use chaosblade_box_agent.Prelude.{
  ◌≡◌, refl, Bool, ◌&&◌, ◌==◌, ◌⊎◌, inl, inr, Option, none, some, List, [], ◌∷◌, str_eq,
  if◌then◌else◌,
}
use chaosblade_box_agent.Prelude.Dict.{Dict, lookup, insert}
use chaosblade_box_agent.Prelude.Strconv.{format_int}
use chaosblade_box_agent.Prelude.Text.{has_prefix}

-- an error of the Kubernetes client, with its message
pub data ApiError : Type 0 where
  already_exists : String → ApiError
  not_found : String → ApiError
  other_error : String → ApiError

abbrev pub api_message : ApiError → String
api_message (already_exists m) = m
api_message (not_found m) = m
api_message (other_error m) = m

-- what is set of a `ChaosEngine`
pub record Engine : Type 0 where
  pub name : String
  pub namespace : String
  pub app_kind : String
  pub app_ns : String
  pub app_label : String
  pub chaos_service_account : String
  pub job_clean_up_policy : String
  pub engine_state : String
  pub experiment_name : String
  pub env : List (String × String)
  pub kind : String
  pub api_version : String

-- a call of a client set; the scope of a role is a namespace, or none for the whole cluster, and what
-- is created from a text is given by the text
pub data Call : Type 0 where
  create_experiment : String → String → Call
  create_service_account : String → String → Call
  get_role : Option String → String → Call
  delete_role : Option String → String → Call
  create_role : Option String → String → Call
  create_role_binding : Option String → String → Call
  create_engine : Engine → Call
  delete_engine : String → String → Call
  get_result : String → String → Call

-- `ChaosResult`, as far as it is read
pub record ChaosResult : Type 0 where
  pub engine_name : String
  pub failed_runs : ℕ

-- what the hub replies: the status, the text of the body and the error, if any, that reading ends with
-- behind the text
pub record HubReply : Type 0 where
  pub status : ℕ
  pub body : String
  pub body_error : Option String

-- the surroundings: the replies to the calls, the decoder for each type, the hub, whether a file can be
-- created, and the error, if any, of reading one that is there. The decoder of a role gives an error,
-- its kind and its name, or none where it leaves the role nil, as a text such as `null` does.
pub record Surroundings : Type 0 where
  pub reply : List Call → Call → Option ApiError
  pub result : List Call → String → String → ApiError ⊎ ChaosResult
  pub decode_experiment : String → Option String
  pub decode_role : String → String ⊎ Option (String × String)
  pub decode_cluster_role : String → String ⊎ Option (String × String)
  pub decode_role_binding : String → Option String
  pub decode_cluster_role_binding : String → Option String
  pub http_get : String → String ⊎ HubReply
  pub read_error : String → Option String
  pub can_create : String → Bool

-- the calls that were made, the newest first, and the files
pub record World : Type 0 where
  pub calls : List Call
  pub files : Dict String

unfoldable pub call : Surroundings → World → Call → World × Option ApiError
call s w c = (record w { calls = c ∷ w.calls }, s.reply w.calls c)

abbrev pub path_of : String → String → String → String → String
path_of version experiment_type experiment_name object_type = str_append version (
    str_append "/" (
      str_append experiment_type (
        str_append "/"
          (str_append experiment_name (str_append "/" (str_append object_type ".yaml"))))))

abbrev pub url_of : String → String → String → String → String
url_of version experiment_type experiment_name object_type =
    str_append "https://hub.litmuschaos.io/api/chaos/" (
      str_append version (
        str_append "?file=charts/" (
          str_append experiment_type (
            str_append "/"
              (str_append experiment_name (str_append "/" (str_append object_type ".yaml")))))))

-- `Read` with a buffer of so many letters: what it puts there, and what is left to read
unfoldable pub read_into : ℕ → String → String × String
read_into zero body = ("", body)
read_into (suc room) nil = ("", "")
read_into (suc room) (cons c body) = let (text, left) = read_into room body in (cons c text, left)

-- the loop that copies the body to the file, on fuel: it ends when `Read` gives nothing. The result is
-- the file's text and what is left of the body.
unfoldable pub copy_body : ℕ → ℕ → String → String → String × String
unfolding read_into
copy_body zero room file body = (file, body)
copy_body (suc fuel) room file body =
    let (text, left) = read_into room body in
    let more = copy_body fuel room (str_append file text) left in
    if str_eq text "" then (file, left) else more

-- the length of the buffer, `make([]byte, 0)`
abbrev pub buffer_length : ℕ
buffer_length = 0

-- `DownloadLitmus`; a file that cannot be created is not written to. One round of the copying loop is
-- fuel enough for a buffer without room.
unfoldable pub download_litmus :
    Surroundings → String → String → String → String → World → World × (String ⊎ String)
unfolding lookup insert format_int copy_body
download_litmus s version experiment_type experiment_name object_type w =
    let local_file_path = path_of version experiment_type experiment_name object_type in
    let experiment_url = url_of version experiment_type experiment_name object_type in
    elim (lookup w.files local_file_path) [
      | some text ↦ elim (s.read_error local_file_path) [
        | some err ↦ (w, inl err)
        | none ↦ (w, inr text)
      ]
      | none ↦ elim (s.http_get experiment_url) [
        | inl err ↦ (w, inl err)
        | inr reply ↦
            let (file, left) = copy_body 1 buffer_length "" reply.body in
            if reply.status == 200
            then (
              if s.can_create local_file_path
                  then record w { files = insert w.files local_file_path file }
                  else w,
              elim reply.body_error [ some err ↦ inl err | none ↦ inr left ],
            )
            else (
              w,
              inl (
                  str_append "download `" (
                    str_append experiment_url
                      (str_append "` failed! response code: " (format_int reply.status)))),
            )
      ]
    ]

-- with a buffer without room the loop ends at once, whatever the fuel
copy_nothing :
    (fuel : ℕ) (file body : String) → copy_body (suc fuel) buffer_length file body ≡ (file, body)
unfolding copy_body
copy_nothing fuel file body = refl

copy_test : copy_body 4 2 "" "hub" ≡ ("hub", "")
unfolding copy_body
copy_test = refl

-- `strings.Split(s, "---")`, past the letters of a separator that are left
split_dashes_first : ℕ → String → String × List String
unfolding has_prefix
split_dashes_first n nil = ("", [])
split_dashes_first (suc n) (cons c s) = split_dashes_first n s
split_dashes_first zero (cons c s) =
    let (part, others) = split_dashes_first 2 s in
    let (part', others') = split_dashes_first zero s in
    if has_prefix (cons c s) "---" then ("", part ∷ others) else (cons c part', others')

unfoldable pub split_dashes : String → List String
unfolding split_dashes_first
split_dashes s = let (part, others) = split_dashes_first 0 s in part ∷ others

-- `strings.Trim(s, "\n")`
trim_left_newlines : String → String
trim_left_newlines nil = ""
trim_left_newlines (cons c s) =
    let rest = trim_left_newlines s in if code c == b'\n' then rest else cons c s

trim_right_newlines : String → String
trim_right_newlines nil = ""
trim_right_newlines (cons c s) =
    let rest = trim_right_newlines s in
    if str_eq rest "" && (code c == b'\n') then "" else cons c rest

unfoldable pub trim_newlines : String → String
unfolding trim_left_newlines trim_right_newlines
trim_newlines s = trim_right_newlines (trim_left_newlines s)

split_test : split_dashes "a---b----c" ≡ "a" ∷ "b" ∷ "-c" ∷ []
unfolding split_dashes
split_test = refl
