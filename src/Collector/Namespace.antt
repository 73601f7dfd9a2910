-- ===== src/Collector/Namespace.antt =====
-- collector/kubernetes/namespace.go: the report of the namespaces, and their names. The resources that the indexer lists are
-- a parameter, none where there is neither an indexer nor a client; an int32 or int64 is its value
-- modulo 2^32 or 2^64.
use chaosblade_box_agent.Prelude.{refl, String, ◌⊎◌, Option, none, some, List, [], ◌∷◌, Outcome}
use chaosblade_box_agent.Prelude.Dict.{Dict, lookup}
use chaosblade_box_agent.Options.{Options}
use chaosblade_box_agent.Transport.Uri.{Uri}
use chaosblade_box_agent.Transport.Client.{Wire, Sent}
use chaosblade_box_agent.Collector.{CommonInfo, ResourceIdentifier}
use chaosblade_box_agent.Collector.Meta.{ObjectMeta, common_info}
use chaosblade_box_agent.Collector.Metric.{K8sBaseCollector, create_k8s_base_collector}
use chaosblade_box_agent.Collector.Increment.{
  ResourceInfo, handle_increment, collect, report_not_exist, report_resources,
}
use chaosblade_box_agent.Prelude.{inl, inr}
use chaosblade_box_agent.Prelude.Text.{trim_space}

-- `NamespaceInfo`
pub record NamespaceInfo : Type 0 where
  pub common : CommonInfo

abbrev pub namespace_only : CommonInfo → NamespaceInfo
namespace_only c = record { common = c }

abbrev pub namespace_resource : ResourceInfo NamespaceInfo
namespace_resource = record {
  common = λ info. info.common;
  only = namespace_only;
  common_only = λ c. refl;
}

-- `NewNamespaceCollector`: none where the address is not registered
unfoldable pub new_namespace_collector : Dict Uri → Option K8sBaseCollector
unfolding lookup create_k8s_base_collector
new_namespace_collector uris = elim (lookup uris "k8sNamespace") [
  | none ↦ none
  | some uri ↦ some (create_k8s_base_collector "nodes" uri)
]

-- what is known of a namespace, before the cache is asked
unfoldable pub namespace_info : ObjectMeta → NamespaceInfo
unfolding common_info
namespace_info ns = record { common = common_info ns }

-- `getNamespaces` with an indexer
unfoldable pub names_of : List ObjectMeta → List String
unfolding trim_space
names_of [] = []
names_of (ns ∷ rest) = trim_space ns.name ∷ names_of rest

-- `getNamespaces`: none where there is no indexer
unfoldable pub get_namespaces : Option (List ObjectMeta) → String ⊎ List String
unfolding names_of
get_namespaces listed = elim listed [
  | none ↦ inl "namespace index is nil"
  | some namespaces ↦ inr (names_of namespaces)
]

module _ (md5sum_data : NamespaceInfo → Option String) where
  -- `handleNamespaceIncrement`
  unfoldable pub handle_namespace_increment :
      Dict ResourceIdentifier → NamespaceInfo → Dict ResourceIdentifier × NamespaceInfo
  unfolding handle_increment
  handle_namespace_increment ids info = handle_increment namespace_resource md5sum_data ids info

  -- `getNamespaceInfo`
  unfoldable pub get_namespace_info :
      Dict ResourceIdentifier → List ObjectMeta → Dict ResourceIdentifier × List NamespaceInfo
  unfolding collect namespace_info
  get_namespace_info ids namespaces =
      collect namespace_resource md5sum_data (λ ids ns. namespace_info ns) (λ info. info) ids
        namespaces

module _ (md5sum_data : NamespaceInfo → Option String)
    (marshal : List NamespaceInfo → String ⊎ String) (opts : Options) where
  -- `reportNotExistResource`
  unfoldable pub report_not_exist_resource :
      Wire → Sent → K8sBaseCollector → (Sent × K8sBaseCollector) × Outcome (Unit {0})
  unfolding report_not_exist
  report_not_exist_resource wire sent collector =
      report_not_exist namespace_resource md5sum_data marshal opts wire sent collector

  -- `Report`
  unfoldable pub report :
      Wire
      → Wire
      → Sent
      → K8sBaseCollector
      → Option (List ObjectMeta)
      → (Sent × K8sBaseCollector) × Outcome (Unit {0})
  unfolding report_resources namespace_info
  report wire wire' sent collector listed =
      report_resources namespace_resource md5sum_data marshal opts (λ ids ns. namespace_info ns)
        wire wire' sent collector listed
