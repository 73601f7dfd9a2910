-- ===== src/Handler/Litmus.antt =====
-- web/handler/litmuschaos/litmuschaos.go: the creation and the destruction of experiments of Litmus.
-- The json.Unmarshal of a map, the generated name, and what the retrying library returns are
-- parameters.
pub mod Cluster
pub mod Rbac
pub mod Install
pub mod Creates
pub mod Downloads
mod Tests
use Prim.Native.String.{◌++◌ as str_append}
use chaosblade_box_agent.Prelude.{
  ◌≡◌, refl, ℕ, String, Bool, true, false, ◌||◌, ◌&&◌, not, ◌==◌, ◌⊎◌, inl, inr, Option, none, some,
  List, [], ◌∷◌, ◌++◌, str_eq, if◌then◌else◌, Outcome, returned, panic, is_some,
}
use chaosblade_box_agent.Prelude.Dict.{Dict, lookup, get}
use chaosblade_box_agent.Options.{Options}
use chaosblade_box_agent.Transport.Request.{Request}
use chaosblade_box_agent.Transport.Uri.{Uri, uri_at}
use chaosblade_box_agent.Transport.Client.{Wire, Sent}
use chaosblade_box_agent.Transport.Response.{
  Response, return_fail, return_success, server_error, parameter_empty, parameter_type_error,
}
use chaosblade_box_agent.Conn.Reports.{report_status}
use chaosblade_box_agent.Handler.Commands.{create_operation, destroy_operation, has}
use chaosblade_box_agent.Handler.Litmus.Cluster.{
  ApiError, already_exists, not_found, other_error, api_message, Engine, Call, create_experiment,
  create_service_account, get_role, delete_role, create_role, create_role_binding, create_engine,
  delete_engine, get_result, ChaosResult, Surroundings, World, call, download_litmus, split_dashes,
  trim_newlines,
}
use chaosblade_box_agent.Handler.Litmus.Rbac.{prepare_litmus_experiment, prepare_litmus_rbac}

-- the environment of `createEnginer`, in the order in which `range` meets the components
unfoldable pub component_env : Dict String → List (String × String)
component_env [] = []
component_env ((key, value) ∷ components) =
    let rest = component_env components in if str_eq value "" then rest else (key, value) ∷ rest

-- a value of `appInfoParam`
abbrev pub app_param : Dict String → String → String
app_param app_info key = get app_info key

-- the engine of `createEnginer`
unfoldable pub engine_of : String → String → String → Dict String → Dict String → Engine
unfolding component_env get lookup
engine_of name namespace experiment_name app_info components = record {
  name = name;
  namespace = namespace;
  app_kind = app_param app_info "appkind";
  app_ns = app_param app_info "appns";
  app_label = app_param app_info "applabel";
  chaos_service_account = str_append experiment_name "-sa";
  job_clean_up_policy = "delete";
  engine_state = "active";
  experiment_name = experiment_name;
  env = component_env components;
  kind = "ChaosEngine";
  api_version = "litmuschaos.io/v1alpha1";
}

-- the goroutine of `AsyncHandlerResultStatus`: the name, the namespace and the experiment
pub record Task : Type 0 where
  pub name : String
  pub namespace : String
  pub experiment_name : String

abbrev pub litmus_fail : String → String → Response
litmus_fail what err = return_fail server_error (str_append what err ∷ [])

-- the engine at the end of `createExec`, and the goroutine that it starts
unfoldable pub finish_create :
    Surroundings → Engine → World → (World × List Task) × Outcome Response
unfolding call
finish_create s engine w =
    let (w, reply) = call s w (create_engine engine) in
    elim reply [
      | some err ↦
          ((w, []), returned (litmus_fail "litmus create enginer failed, err: " (api_message err)))
      | none ↦ (
        (
          w,
          record {
            name = engine.name;
            namespace = engine.namespace;
            experiment_name = engine.experiment_name;
          }
              ∷ [],
        ),
        returned return_success,
      )
    ]

-- `createExec`, with the goroutines that it starts
unfoldable pub create_exec :
    Surroundings
    → String
    → String
    → String
    → String
    → String
    → Dict String
    → Dict String
    → World
    → (World × List Task) × Outcome Response
create_exec s version experiment_type experiment_name namespace name app_info components w =
    if str_eq version ""
    then (
      (w, []),
      returned
          (return_fail server_error ("litmus operator not installed, please install first" ∷ [])),
    )
    else (let (w, err) =
          prepare_litmus_experiment s version experiment_type experiment_name namespace w in
        elim err [
          | some e ↦ ((w, []), returned (litmus_fail "litmus prepare experiment failed, err: " e))
          | none ↦
              let (w, outcome) =
                prepare_litmus_rbac s version experiment_type experiment_name namespace w in
              elim outcome [
                | panic ↦ ((w, []), panic)
                | returned err ↦ elim err [
                  | some e ↦ ((w, []), returned (litmus_fail "litmus prepare rbac failed, err: " e))
                  | none ↦
                      finish_create s (engine_of name namespace experiment_name app_info components)
                        w
                ]
              ]
        ])

-- the namespace of a request, or the default one
abbrev pub namespace_of : Dict String → String
namespace_of params =
    if str_eq (get params "namespace") "" then "default" else get params "namespace"

-- `createParamerAndExec`: behind the type of the experiment the other parameters only have to be there
unfoldable pub create_paramer_and_exec :
    Surroundings
    → (String → Option (Dict String))
    → String
    → String
    → Request
    → World
    → (World × List Task) × Outcome Response
unfolding get lookup create_exec
create_paramer_and_exec s unmarshal version name request w =
    let params = request.params in
    let refuse : ℕ → String → (World × List Task) × Outcome Response =
      λ code what. ((w, []), returned (return_fail code (what ∷ []))) in
    if str_eq (get params "experimentType") ""
    then refuse parameter_empty "experimentType"
    else elim (lookup params "experimentName") [
      | none ↦ refuse parameter_empty "experimentName"
      | some experiment_name ↦ elim (lookup params "appInfo") [
        | none ↦ refuse parameter_empty "appInfo"
        | some app_info_str ↦ elim (unmarshal app_info_str) [
          | none ↦ refuse parameter_type_error "appInfo"
          | some app_info ↦ elim (lookup params "components") [
            | none ↦ refuse parameter_empty "components"
            | some components_str ↦ elim (unmarshal components_str) [
              | none ↦ refuse parameter_type_error "components"
              | some components ↦
                  create_exec s version (get params "experimentType") experiment_name
                    (namespace_of params) name app_info components w
            ]
          ]
        ]
      ]
    ]

-- `destroyExec`
unfoldable pub destroy_exec : Surroundings → String → String → World → World × Response
unfolding call
destroy_exec s name namespace w =
    let (w, reply) = call s w (delete_engine namespace name) in
    elim reply [
      | none ↦ (w, return_success)
      | some err ↦ elim err [
        | not_found m ↦ (w, return_success)
        | already_exists m ↦ (w, litmus_fail "litmus destroy engine failed, err: " m)
        | other_error m ↦ (w, litmus_fail "litmus destroy engine failed, err: " m)
      ]
    ]

-- `destroyParamerAndExec`
unfoldable pub destroy_paramer_and_exec : Surroundings → Request → World → World × Response
unfolding get destroy_exec
destroy_paramer_and_exec s request w =
    let name = get request.params "name" in
    if str_eq name ""
    then (w, return_fail parameter_empty ("name" ∷ []))
    else destroy_exec s name (namespace_of request.params) w

-- `LitmusChaosHandler.Handle`
unfoldable pub handle :
    Surroundings
    → (String → Option (Dict String))
    → String
    → String
    → Request
    → World
    → (World × List Task) × Outcome Response
unfolding get lookup create_paramer_and_exec destroy_paramer_and_exec
handle s unmarshal version name request w =
    let chaos_action = get request.params "chaosAction" in
    if has create_operation chaos_action
    then create_paramer_and_exec s unmarshal version name request w
    else if has destroy_operation chaos_action
    then (let (w, response) = destroy_paramer_and_exec s request w in ((w, []), returned response))
    else ((w, []), returned (litmus_fail "litmus exec failed, no such action: " chaos_action))

-- one attempt of `AsyncHandlerResultStatus`: nil, or its error
unfoldable pub attempt : Surroundings → Task → World → World × Option String
attempt s task w =
    let name = str_append task.name (str_append "-" task.experiment_name) in
    let w' = record w { calls = get_result task.namespace name ∷ w.calls } in
    elim (s.result w.calls task.namespace name) [
      | inl err ↦ (w', some (api_message err))
      | inr result ↦
          if not (str_eq result.engine_name "") && (result.failed_runs == 0)
          then (w', none)
          else (w', some "failed in chaos injection phase")
    ]

-- the report of `AsyncHandlerResultStatus`, with what the attempts came to
unfoldable pub async_handler_result_status :
    Options → Dict Uri → Wire → Sent → Task → Option String → Sent
unfolding lookup report_status
async_handler_result_status opts uris wire sent task tried =
    let uri = uri_at uris "chaosbladeAsync" in
    elim tried [
      | none ↦ report_status opts wire sent task.name "Success" "" "litmuschaos" uri
      | some err ↦
          report_status opts wire sent task.name "Error"
            (str_append "inject fault failed, err: " err) "litmuschaos" uri
    ]
