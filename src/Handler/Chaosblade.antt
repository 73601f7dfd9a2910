-- ===== src/Handler/Chaosblade.antt =====
-- web/handler/chaosblade.go: the handler of blade commands and the experiments that it keeps.
-- The `blade` binary is a parameter, the reply to a command after the commands that ran before it, and so
-- are the two decoders of JSON. Each access of the map of running experiments is one step.
pub mod Wait
pub mod Exec
pub mod Running
pub mod Panics
pub mod Tasks
pub mod Polls
pub mod Keeps
use Prim.Native.String.{◌++◌ as str_append}
use chaosblade_box_agent.Prelude.{
  ℕ, String, Bool, true, false, Option, none, some, List, [], ◌∷◌, str_eq, if◌then◌else◌,
}
use chaosblade_box_agent.Prelude.Dict.{Dict}
use chaosblade_box_agent.Prelude.Text.{from_brace}
use chaosblade_box_agent.Transport.Json.{
  Json, str, null, obj, Fields, end, lookup_field, as_string, as_map,
}
use chaosblade_box_agent.Transport.Response.{Response, return_fail, server_error}

-- what `bash.ExecScript` returns
pub record Reply : Type 0 where
  pub result : String
  pub err_msg : String
  pub ok : Bool

-- The outside of the handler: `blade calls args` is the reply of `ExecScript(BladeBinPath, args)`
-- after `calls`, the newest first; `decode_response` and `decode_map` are `json.Unmarshal` into a
-- `transport.Response` and into a `map[string]interface{}`, none for an error.
pub record Blade : Type 0 where
  pub bin_exists : Bool
  pub blade : List String → String → Reply
  pub decode_response : String → Option Response
  pub decode_map : String → Option Fields

-- the goroutines that the handler starts
pub data Task : Type 0 where
  java_install java_uninstall async_create : String → Task

-- `ChaosbladeHandler`, with the commands that ran and the goroutines that were started
pub record ChaosbladeHandler : Type 0 where
  pub running : Dict String
  pub calls : List String
  pub tasks : List Task

-- `NewChaosbladeHandler`
unfoldable pub new_chaosblade_handler : ChaosbladeHandler
new_chaosblade_handler = record { running = []; calls = []; tasks = [] }

-- the fields of `preparation` that are read
pub record Preparation : Type 0 where
  pub uid : String
  pub program_type : String
  pub status : String
  pub error : String

-- a query's result: a record, an error, or a panic of a type assertion
pub data Queried : Type 0 where
  found : Preparation → Queried
  failed : Queried
  panicked : Queried

module _ (env : Blade) where
  -- `bash.ExecScript(…, options.BladeBinPath, args)`
  unfoldable pub exec_script : ChaosbladeHandler → String → ChaosbladeHandler × Reply
  exec_script ch args = (record ch { calls = args ∷ ch.calls }, env.blade ch.calls args)

  -- `parseResult`
  unfoldable pub parse_result : String → Response
  unfolding from_brace return_fail
  parse_result result = elim (env.decode_response result) [
    | some response ↦ response
    | none ↦ elim (from_brace result) [
      | none ↦
          return_fail server_error
            (str_append "execute success, but parse result err, result: " result ∷ [])
      | some json_str ↦ elim (env.decode_response json_str) [
        | some response ↦ response
        | none ↦ return_fail server_error (
            str_append "execute success, but unmarshal result err with parsing, result: " result
            ∷ [])
      ]
    ]
  ]

  -- `uid, ok := m["uid"].(string); ok && uid != ""`
  unfoldable pub uid_field : Fields → Option String
  unfolding lookup_field
  uid_field fs = elim (lookup_field fs "uid") [
    | none ↦ none
    | some v ↦ elim (as_string v) [
      | none ↦ none
      | some uid ↦ if str_eq uid "" then none else some uid
    ]
  ]

  abbrev or_else : Option String → String → String
  or_else none other = other
  or_else (some uid) other = uid

  -- `extractUidFromRawResult`
  unfoldable pub extract_uid_from_raw_result : String → String
  unfolding uid_field
  extract_uid_from_raw_result raw_result = elim (env.decode_map raw_result) [
    | none ↦ ""
    | some result_map ↦ elim (lookup_field result_map "result") [
      | none ↦ or_else (uid_field result_map) ""
      | some v ↦ elim (as_map v) [
        | none ↦ or_else (uid_field result_map) ""
        | some result ↦ or_else (uid_field result) (or_else (uid_field result_map) "")
      ]
    ]
  ]

  -- the last two attempts of `extractUidFromResponse` on a text
  abbrev uid_in_text : String → String → String
  uid_in_text result_str raw_result = elim (env.decode_map result_str) [
    | none ↦ extract_uid_from_raw_result raw_result
    | some result_map ↦ or_else (uid_field result_map) (extract_uid_from_raw_result raw_result)
  ]

  -- `extractUidFromResponse`, of a response that is not nil: every caller has one
  unfoldable pub extract_uid_from_response : Response → String → String
  unfolding uid_field extract_uid_from_raw_result
  extract_uid_from_response response raw_result = elim (as_string response.result) [
    | some uid ↦ if str_eq uid "" then uid_in_text uid raw_result else uid
    | none ↦ elim (as_map response.result) [
      | some result_map ↦ or_else (uid_field result_map) (extract_uid_from_raw_result raw_result)
      | none ↦ extract_uid_from_raw_result raw_result
    ]
  ]

  -- `v, ok := fields[k]; ok` and then `v.(string)`: the default, the text, or none for a panic
  abbrev string_field : Fields → String → Option String
  string_field fs k = elim (lookup_field fs k) [ none ↦ some "" | some v ↦ as_string v ]

  unfoldable pub read_preparation : String → Fields → Queried
  unfolding lookup_field
  read_preparation uid fs = elim (string_field fs "ProgramType") [
    | none ↦ panicked
    | some program_type ↦ elim (string_field fs "Status") [
      | none ↦ panicked
      | some status ↦ elim (string_field fs "Error") [
        | none ↦ panicked
        | some error ↦
            found
              (record { uid = uid; program_type = program_type; status = status; error = error })
      ]
    ]
  ]

  -- `queryPreparationStatus`
  unfoldable pub query_preparation_status : ChaosbladeHandler → String → ChaosbladeHandler × Queried
  unfolding exec_script parse_result read_preparation
  query_preparation_status ch uid =
      let (ch', reply) = exec_script ch (str_append "status " uid) in
      if reply.ok
      then (
        ch',
        elim (as_map (parse_result reply.result).result) [
          | none ↦ failed
          | some fs ↦ read_preparation uid fs
        ],
      )
      else (ch', failed)
