-- ===== src/Handler/Litmus/Rbac.antt =====
-- web/handler/litmuschaos/litmuschaos.go: what is prepared before an experiment: the experiment's
-- definition, its service account, its role and its binding.
pub mod Binds
use Prim.Native.String.{◌++◌ as str_append}
use chaosblade_box_agent.Prelude.{
  String, ◌⊎◌, inl, inr, Option, none, some, List, [], ◌∷◌, str_eq, if◌then◌else◌, Outcome,
  returned, panic,
}
use chaosblade_box_agent.Handler.Litmus.Cluster.{
  ApiError, already_exists, not_found, other_error, api_message, create_experiment,
  create_service_account, get_role, delete_role, create_role, create_role_binding, Surroundings,
  World, call, download_litmus, split_dashes, trim_newlines,
}

-- an error that is passed over where the object is there already
abbrev pub unless_exists : Option ApiError → Option String
unless_exists none = none
unless_exists (some (already_exists m)) = none
unless_exists (some (not_found m)) = some m
unless_exists (some (other_error m)) = some m

-- `prepareLitmusExperiment`: nil, or an error
unfoldable pub prepare_litmus_experiment :
    Surroundings → String → String → String → String → World → World × Option String
unfolding download_litmus call
prepare_litmus_experiment s version experiment_type experiment_name namespace w =
    let (w, downloaded) =
      download_litmus s version experiment_type experiment_name "experiment" w in
    elim downloaded [
      | inl err ↦ (w, some err)
      | inr text ↦ elim (s.decode_experiment text) [
        | some err ↦ (w, some (str_append "experiment Unmarshal err: " err))
        | none ↦
            let (w, reply) = call s w (create_experiment namespace text) in (w, unless_exists reply)
      ]
    ]

abbrev pub returning : World × Option String → World × Outcome (Option String)
returning (w, err) = (w, returned err)

-- the decoder of the role of a scope, and that of its binding
abbrev pub decode_for : Surroundings → Option String → String → String ⊎ Option (String × String)
decode_for s none text = s.decode_cluster_role text
decode_for s (some namespace) text = s.decode_role text

abbrev pub decode_binding_for : Surroundings → Option String → String → Option String
decode_binding_for s none text = s.decode_cluster_role_binding text
decode_binding_for s (some namespace) text = s.decode_role_binding text

-- the creation of the role and of its binding
unfoldable pub create_role_and_bind :
    Surroundings → Option String → String → String → World → World × Option String
unfolding call
create_role_and_bind s scope role_str role_binding_str w =
    let (w, reply) = call s w (create_role scope role_str) in
    elim reply [
      | some err ↦ (w, some (api_message err))
      | none ↦ elim (decode_binding_for s scope role_binding_str) [
        | some err ↦ (w, some err)
        | none ↦
            let (w, reply) = call s w (create_role_binding scope role_binding_str) in
            (w, unless_exists reply)
      ]
    ]

-- `createClusterRoleAndRoleBinding` for the scope of the cluster, `createRoleAndRoleBinding` for that
-- of a namespace: a role that is there is deleted first
unfoldable pub create_role_and_role_binding :
    Surroundings → Option String → String → String → World → World × Outcome (Option String)
unfolding call create_role_and_bind
create_role_and_role_binding s scope role_str role_binding_str w =
    let create =
      λ (w : World). returning (create_role_and_bind s scope role_str role_binding_str w) in
    elim (decode_for s scope role_str) [
      | inl err ↦ (w, returned (some err))
      | inr decoded ↦ elim decoded [
        | none ↦ (w, panic)
        | some (kind, name) ↦
            let (w, got) = call s w (get_role scope name) in
            let replace : World × Outcome (Option String) =
              (let (w, deleted) = call s w (delete_role scope name) in
                elim deleted [
                  | some err ↦ (w, returned (some (api_message err)))
                  | none ↦ create w
                ]) in
            elim got [
              | none ↦ replace
              | some err ↦ elim err [
                | not_found m ↦ create w
                | already_exists m ↦ (w, returned (some m))
                | other_error m ↦ (w, returned (some m))
              ]
            ]
      ]
    ]

abbrev pub k8s_kind_cluster_role : String
k8s_kind_cluster_role = "ClusterRole"

-- the role and its binding, from the parts of the text behind the one of the service account
unfoldable pub prepare_roles :
    Surroundings → String → List String → World → World × Outcome (Option String)
unfolding trim_newlines create_role_and_role_binding
prepare_roles s namespace [] w = (w, panic)
prepare_roles s namespace (role_part ∷ rest) w =
    let role_str = trim_newlines role_part in
    elim (s.decode_role role_str) [
      | inl err ↦ (w, returned (some err))
      | inr decoded ↦ elim rest [
        | [] ↦ (w, panic)
        | binding_part ∷ more ↦
            let binding_str = trim_newlines binding_part in
            elim decoded [
              | none ↦ (w, panic)
              | some (kind, name) ↦
                  if str_eq kind k8s_kind_cluster_role
                  then create_role_and_role_binding s none role_str binding_str w
                  else create_role_and_role_binding s (some namespace) role_str binding_str w
            ]
      ]
    ]

-- `prepareLitmusRbac` from the parts of the text; an error of the decoder of the service account is
-- only logged
unfoldable pub prepare_parts :
    Surroundings → String → List String → World → World × Outcome (Option String)
unfolding trim_newlines call prepare_roles
prepare_parts s namespace [] w = (w, returned (some "get rbac.yaml failed"))
prepare_parts s namespace (a ∷ []) w = (w, returned (some "get rbac.yaml failed"))
prepare_parts s namespace (a ∷ b ∷ []) w = (w, returned (some "get rbac.yaml failed"))
prepare_parts s namespace (a ∷ account ∷ role ∷ rest) w =
    let (w, reply) = call s w (create_service_account namespace (trim_newlines account)) in
    elim (unless_exists reply) [
      | some err ↦ (w, returned (some err))
      | none ↦ prepare_roles s namespace (role ∷ rest) w
    ]

-- `prepareLitmusRbac`
unfoldable pub prepare_litmus_rbac :
    Surroundings → String → String → String → String → World → World × Outcome (Option String)
unfolding split_dashes prepare_parts
prepare_litmus_rbac s version experiment_type experiment_name namespace w =
    let (w, downloaded) = download_litmus s version experiment_type experiment_name "rbac" w in
    elim downloaded [
      | inl err ↦ (w, returned (some err))
      | inr text ↦ prepare_parts s namespace (split_dashes text) w
    ]
