-- ===== src/Collector/Deployment.antt =====
-- collector/kubernetes/deployment.go: the report of the deployments. The resources that the indexer lists are
-- a parameter, none where there is neither an indexer nor a client; an int32 or int64 is its value
-- modulo 2^32 or 2^64.
use chaosblade_box_agent.Prelude.{refl, ℕ, String, ◌⊎◌, Option, none, some, List, Outcome}
use chaosblade_box_agent.Prelude.Dict.{Dict, lookup}
use chaosblade_box_agent.Options.{Options}
use chaosblade_box_agent.Transport.Uri.{Uri}
use chaosblade_box_agent.Transport.Client.{Wire, Sent}
use chaosblade_box_agent.Collector.{CommonInfo, ResourceIdentifier}
use chaosblade_box_agent.Collector.Meta.{ObjectMeta, common_info}
use chaosblade_box_agent.Collector.Metric.{K8sBaseCollector, create_k8s_base_collector}
use chaosblade_box_agent.Collector.Increment.{
  ResourceInfo, handle_increment, collect, report_not_exist, report_resources,
}

-- `DeploymentInfo`
pub record DeploymentInfo : Type 0 where
  pub common : CommonInfo
  pub namespace : String
  pub available_replicas : ℕ
  pub replicas : ℕ
  pub observed_generation : ℕ
  pub ready_replicas : ℕ
  pub updated_replicas : ℕ
  pub strategy : String
  pub unavailable_replicas : ℕ

-- what is read of a `Deployment`; the pointer to the replicas of its spec, which the server of
-- Kubernetes always sets, is read
pub record Deployment : Type 0 where
  pub meta : ObjectMeta
  pub available_replicas : ℕ
  pub spec_replicas : ℕ
  pub observed_generation : ℕ
  pub ready_replicas : ℕ
  pub updated_replicas : ℕ
  pub unavailable_replicas : ℕ
  pub strategy_type : String

abbrev pub deployment_only : CommonInfo → DeploymentInfo
deployment_only c = record {
  common = c;
  namespace = "";
  available_replicas = 0;
  replicas = 0;
  observed_generation = 0;
  ready_replicas = 0;
  updated_replicas = 0;
  strategy = "";
  unavailable_replicas = 0;
}

abbrev pub deployment_resource : ResourceInfo DeploymentInfo
deployment_resource = record {
  common = λ info. info.common;
  only = deployment_only;
  common_only = λ c. refl;
}

-- `NewDeploymentCollector`: none where the address is not registered
unfoldable pub new_deployment_collector : Dict Uri → Option K8sBaseCollector
unfolding lookup create_k8s_base_collector
new_deployment_collector uris = elim (lookup uris "k8sDeployment") [
  | none ↦ none
  | some uri ↦ some (create_k8s_base_collector "deployments" uri)
]

-- what is known of a deployment, before the cache is asked
unfoldable pub deployment_info : Deployment → DeploymentInfo
unfolding common_info
deployment_info d = record {
  common = common_info d.meta;
  namespace = d.meta.namespace;
  available_replicas = d.available_replicas;
  replicas = d.spec_replicas;
  observed_generation = d.observed_generation;
  ready_replicas = d.ready_replicas;
  updated_replicas = d.updated_replicas;
  strategy = d.strategy_type;
  unavailable_replicas = d.unavailable_replicas;
}

module _ (md5sum_data : DeploymentInfo → Option String) where
  -- `handleDeploymentIncrement`
  unfoldable pub handle_deployment_increment :
      Dict ResourceIdentifier → DeploymentInfo → Dict ResourceIdentifier × DeploymentInfo
  unfolding handle_increment
  handle_deployment_increment ids info = handle_increment deployment_resource md5sum_data ids info

  -- `getDeploymentInfo`
  unfoldable pub get_deployment_info :
      Dict ResourceIdentifier → List Deployment → Dict ResourceIdentifier × List DeploymentInfo
  unfolding collect deployment_info
  get_deployment_info ids deployments =
      collect deployment_resource md5sum_data (λ ids d. deployment_info d) (λ info. info) ids
        deployments

module _ (md5sum_data : DeploymentInfo → Option String)
    (marshal : List DeploymentInfo → String ⊎ String) (opts : Options) where
  -- `reportNotExistResource`
  unfoldable pub report_not_exist_resource :
      Wire → Sent → K8sBaseCollector → (Sent × K8sBaseCollector) × Outcome (Unit {0})
  unfolding report_not_exist
  report_not_exist_resource wire sent collector =
      report_not_exist deployment_resource md5sum_data marshal opts wire sent collector

  -- `Report`
  unfoldable pub report :
      Wire
      → Wire
      → Sent
      → K8sBaseCollector
      → Option (List Deployment)
      → (Sent × K8sBaseCollector) × Outcome (Unit {0})
  unfolding report_resources deployment_info
  report wire wire' sent collector listed =
      report_resources deployment_resource md5sum_data marshal opts (λ ids d. deployment_info d)
        wire wire' sent collector listed
