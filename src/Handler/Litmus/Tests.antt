-- ===== src/Handler/Litmus/Tests.antt =====
-- The preparation and the creation of an experiment of Litmus on small inputs.
use chaosblade_box_agent.Prelude.{
  ◌≡◌, refl, String, true, Option, none, some, List, [], ◌∷◌, inl, inr, returned,
}
use chaosblade_box_agent.Prelude.Dict.{lookup}
use chaosblade_box_agent.Handler.Litmus.Cluster.{
  ApiError, not_found, Call, get_role, Surroundings, World, path_of,
}
use chaosblade_box_agent.Handler.Litmus.Rbac.{prepare_litmus_experiment, prepare_litmus_rbac}
use chaosblade_box_agent.Handler.Litmus.{engine_of, finish_create, create_exec}
use chaosblade_box_agent.Handler.Litmus.Creates.{Started, create_exec-Started}
use chaosblade_box_agent.Handler.Litmus.Downloads.{rbac_text, download_litmus_spoils}

abbrev reply_of : List Call → Call → Option ApiError
reply_of calls (get_role scope name) = some (not_found "no such role")
reply_of calls c = none

-- a cluster without roles, and a hub that has one text for everything
abbrev surroundings_with : String → Surroundings
surroundings_with text = record {
  reply = reply_of;
  result = λ calls namespace name. inl (not_found "no result");
  decode_experiment = λ t. none;
  decode_role = λ t. inr (some ("Role", "pod-delete-sa"));
  decode_cluster_role = λ t. inr (some ("ClusterRole", "pod-delete-sa"));
  decode_role_binding = λ t. none;
  decode_cluster_role_binding = λ t. none;
  http_get = λ url. inr (record { status = 200; body = text; body_error = none });
  read_error = λ path. none;
  can_create = λ path. true;
}

abbrev new_world : World
new_world = record { calls = []; files = [] }

abbrev whole_text : String
whole_text = "---account---role---binding"

create_exec-Started_example :
    Started (surroundings_with whole_text) (engine_of "e1" "default" "pod-delete" [] []) (
      create_exec
        (surroundings_with whole_text)
        "2.0"
        "generic"
        "pod-delete"
        "default"
        "e1"
        []
        []
        new_world)
create_exec-Started_example =
    create_exec-Started (surroundings_with whole_text) "2.0" "generic" "pod-delete" "default" "e1"
      [] [] new_world

-- the creation goes through
created :
    (create_exec
      (surroundings_with whole_text)
      "2.0"
      "generic"
      "pod-delete"
      "default"
      "e1"
      []
      []
      new_world).0.1
    ≡ record { name = "e1"; namespace = "default"; experiment_name = "pod-delete" } ∷ []
unfolding create_exec finish_create engine_of prepare_litmus_experiment prepare_litmus_rbac
created = refl

download_litmus_spoils_example :
    let s = surroundings_with whole_text in
    let fetched = rbac_text s "2.0" "generic" "pod-delete" "default" new_world in
    let later : World = record fetched.0 { calls = [] } in
    (lookup fetched.0.files (path_of "2.0" "generic" "pod-delete" "rbac") ≡ some "")
    × (fetched.1 ≡ inr whole_text)
    × (prepare_litmus_rbac s "2.0" "generic" "pod-delete" "default" later
        ≡ (later, returned (some "get rbac.yaml failed")))
unfolding lookup
download_litmus_spoils_example =
    download_litmus_spoils (surroundings_with whole_text) "2.0" "generic" "pod-delete" "default"
      new_world (record { status = 200; body = whole_text; body_error = none }) [] refl refl refl
      refl refl
