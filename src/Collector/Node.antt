-- ===== src/Collector/Node.antt =====
-- collector/kubernetes/node.go: the report of a node, and the roles of a node. The nodes that the
-- indexer lists are a parameter, none where there is neither an indexer nor a client.
use Prim.Native.Char.{code}
use Prim.Native.String.{String, [] as nil, ◌∷◌ as cons}
use chaosblade_box_agent.Prelude.{
  ◌≡◌, refl, true, not, ◌&&◌, ◌==◌, ◌⊎◌, Option, none, some, List, [], ◌∷◌, str_eq, if◌then◌else◌,
  Outcome, returned,
}
use chaosblade_box_agent.Prelude.Dict.{Dict, lookup}
use chaosblade_box_agent.Prelude.Sets.{join, set_insert}
use chaosblade_box_agent.Options.{Options}
use chaosblade_box_agent.Transport.Uri.{Uri}
use chaosblade_box_agent.Transport.Client.{Wire, Sent}
use chaosblade_box_agent.Collector.Meta.{ObjectMeta}
use chaosblade_box_agent.Collector.Metric.{
  K8sBaseCollector, create_k8s_base_collector, report_k8s_metric,
}

-- `NodeInfo`
pub record NodeInfo : Type 0 where
  pub uid : String
  pub name : String
  pub role : String
  pub cluster_id : String
  pub cluster_name : String

-- `NewNodeCollector`: none where the address is not registered
unfoldable pub new_node_collector : Dict Uri → Option K8sBaseCollector
unfolding lookup create_k8s_base_collector
new_node_collector uris = elim (lookup uris "k8sNode") [
  | none ↦ none
  | some uri ↦ some (create_k8s_base_collector "nodes" uri)
]

-- `strings.TrimPrefix` of a text with that prefix: none where it has another
unfoldable pub after_prefix : String → String → Option String
after_prefix s nil = some s
after_prefix nil (cons d t) = none
after_prefix (cons c s) (cons d t) =
    let rest = after_prefix s t in if code c == code d then rest else none

abbrev pub label_node_role_prefix : String
label_node_role_prefix = "node-role.kubernetes.io/"

abbrev pub node_label_role : String
node_label_role = "kubernetes.io/role"

-- one label of the loop
unfoldable pub add_role : List String → String → String → List String
unfolding after_prefix set_insert
add_role roles k v = elim (after_prefix k label_node_role_prefix) [
  | some role ↦ if not (str_eq role "") then set_insert roles role else roles
  | none ↦ if str_eq k node_label_role && not (str_eq v "") then set_insert roles v else roles
]

unfoldable pub find_roles : List String → Dict String → List String
unfolding add_role
find_roles roles [] = roles
find_roles roles ((k, v) ∷ labels) = find_roles (add_role roles k v) labels

-- `findNodeRoles`
unfoldable pub find_node_roles : Dict String → List String
unfolding find_roles
find_node_roles labels = find_roles [] labels

-- the role that is reported
unfoldable pub role_of : Dict String → String
unfolding find_node_roles join
role_of labels = elim (find_node_roles labels) [
  | [] ↦ "<none>"
  | role ∷ roles ↦ join "," (role ∷ roles)
]

-- `getNodeInfo`: the loop ends behind the first node
unfoldable pub get_node_info : Options → List ObjectMeta → List NodeInfo
unfolding role_of
get_node_info opts [] = []
get_node_info opts (node ∷ nodes) =
    record {
      uid = node.uid;
      name = node.name;
      role = role_of node.labels;
      cluster_id = opts.cluster_id;
      cluster_name = "";
    }
    ∷ []

-- `Report`: there is no increment, and nothing is reported as gone
unfoldable pub report :
    (List NodeInfo → String ⊎ String)
    → Options
    → Wire
    → Sent
    → K8sBaseCollector
    → Option (List ObjectMeta)
    → (Sent × K8sBaseCollector) × Outcome (Unit {0})
unfolding get_node_info report_k8s_metric
report marshal opts wire sent collector listed = elim listed [
  | none ↦ ((sent, collector), returned tt)
  | some nodes ↦ report_k8s_metric opts marshal wire sent collector true (get_node_info opts nodes)
]

roles_test :
    role_of (
      ("kubernetes.io/role", "b")
      ∷ ("node-role.kubernetes.io/a", "")
      ∷ ("node-role.kubernetes.io/", "")
      ∷ [])
    ≡ "a,b"
unfolding role_of
roles_test = refl
