-- ===== src/Handler/Commands.antt =====
-- The tests on blade's command line: pkg/options/chaostoolsoptions.go and the predicates of
-- web/handler/chaosblade.go.
use chaosblade_box_agent.Prelude.{
  ◌≡◌, refl, String, Bool, true, false, none, some, List, [], ◌∷◌, str_eq, if◌then◌else◌, is_some,
}
use chaosblade_box_agent.Prelude.Dict.{Dict, lookup}
use chaosblade_box_agent.Prelude.Text.{fields, equal_fold, after_dashes}

abbrev pub prepare_operation : Dict Bool
prepare_operation = ("prepare", true) ∷ ("p", true) ∷ []

abbrev pub create_operation : Dict Bool
create_operation = ("create", true) ∷ ("c", true) ∷ []

abbrev pub revoke_operation : Dict Bool
revoke_operation = ("revoke", true) ∷ ("r", true) ∷ []

abbrev pub destroy_operation : Dict Bool
destroy_operation = ("destroy", true) ∷ ("d", true) ∷ []

abbrev pub async_paramer : Dict Bool
async_paramer = ("async", true) ∷ ("a", true) ∷ []

-- `_, ok := m[k]`
abbrev pub has : Dict Bool → String → Bool
has m k = is_some (lookup m k)

unfoldable pub is_create_or_prepare_cmd : String → Bool
unfolding lookup
is_create_or_prepare_cmd command =
    if has prepare_operation command
    then true
    else if has create_operation command
    then true
    else false

unfoldable pub is_destroy_or_revoke_cmd : String → Bool
unfolding lookup
is_destroy_or_revoke_cmd command =
    if has revoke_operation command
    then true
    else if has destroy_operation command
    then true
    else false

abbrev pub java_type : String
java_type = "jvm"

unfoldable pub is_java_agent_install : String → String → Bool
unfolding lookup
is_java_agent_install command agent_type =
    if has prepare_operation command then str_eq agent_type java_type else false

unfoldable pub is_revoke_operation : String → Bool
unfolding lookup
is_revoke_operation command = if has revoke_operation command then true else false

-- the loop of `isAsyncCreate`
unfoldable pub any_async : List String → Bool
unfolding lookup after_dashes
any_async [] = false
any_async (v ∷ cmds) =
    let later = any_async cmds in
    elim (after_dashes v) [
      | none ↦ later
      | some name ↦ if has async_paramer name then true else later
    ]

-- `isAsyncCreate` reads `cmds[0]`; it is called behind a test that there is one
unfoldable pub is_async_create : String → Bool
unfolding lookup fields any_async
is_async_create cmd = elim (fields cmd) [
  | [] ↦ false
  | first ∷ rest ↦ if has create_operation first then any_async (first ∷ rest) else false
]

unfoldable pub is_k8s_create_cmd : String → String → Bool
unfolding lookup fields equal_fold
is_k8s_create_cmd cmd command =
    if has create_operation command
    then elim (fields cmd) [
      | [] ↦ false
      | first ∷ rest ↦ elim rest [ [] ↦ false | second ∷ more ↦ equal_fold second "k8s" ]
    ]
    else false

command_tests :
    (is_k8s_create_cmd "create k8s pod-pod delete" "create" ≡ true)
    × (is_async_create "create cpu load --async" ≡ true)
    × (is_async_create "destroy x --async" ≡ false)
unfolding is_k8s_create_cmd is_async_create
command_tests = (refl, refl, refl)
