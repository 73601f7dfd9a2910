-- ===== src/Collector/ReplicaSet.antt =====
-- collector/kubernetes/replicaset.go: the report of the replica sets. The resources that the indexer lists are
-- a parameter, none where there is neither an indexer nor a client; an int32 or int64 is its value
-- modulo 2^32 or 2^64.
use chaosblade_box_agent.Prelude.{
  refl, ℕ, String, ◌⊎◌, Option, none, some, List, [], ◌∷◌, str_eq, if◌then◌else◌, Outcome,
}
use chaosblade_box_agent.Prelude.Dict.{Dict, lookup}
use chaosblade_box_agent.Options.{Options}
use chaosblade_box_agent.Transport.Uri.{Uri}
use chaosblade_box_agent.Transport.Client.{Wire, Sent}
use chaosblade_box_agent.Collector.{CommonInfo, ResourceIdentifier}
use chaosblade_box_agent.Collector.Meta.{ObjectMeta, common_info}
use chaosblade_box_agent.Collector.Metric.{K8sBaseCollector, create_k8s_base_collector}
use chaosblade_box_agent.Collector.Increment.{
  ResourceInfo, handle_increment, collect, report_not_exist, report_resources,
}

-- `ReplicaSetInfo`
pub record ReplicaSetInfo : Type 0 where
  pub common : CommonInfo
  pub namespace : String
  pub available_replicas : ℕ
  pub replicas : ℕ
  pub observed_generation : ℕ
  pub ready_replicas : ℕ
  pub deployment_uid : String

-- what is read of a `ReplicaSet`; the owners are the kind and the uid of each reference
pub record ReplicaSet : Type 0 where
  pub meta : ObjectMeta
  pub available_replicas : ℕ
  pub replicas : ℕ
  pub observed_generation : ℕ
  pub ready_replicas : ℕ
  pub owners : List (String × String)

abbrev pub replica_set_only : CommonInfo → ReplicaSetInfo
replica_set_only c = record {
  common = c;
  namespace = "";
  available_replicas = 0;
  replicas = 0;
  observed_generation = 0;
  ready_replicas = 0;
  deployment_uid = "";
}

abbrev pub replica_set_resource : ResourceInfo ReplicaSetInfo
replica_set_resource = record {
  common = λ info. info.common;
  only = replica_set_only;
  common_only = λ c. refl;
}

-- `NewReplicasetCollector`: none where the address is not registered
unfoldable pub new_replica_set_collector : Dict Uri → Option K8sBaseCollector
unfolding lookup create_k8s_base_collector
new_replica_set_collector uris = elim (lookup uris "k8sReplicaset") [
  | none ↦ none
  | some uri ↦ some (create_k8s_base_collector "nodes" uri)
]

-- the uid of the owner that is a deployment, the last one if there are several
unfoldable pub deployment_uid : String → List (String × String) → String
deployment_uid found [] = found
deployment_uid found ((kind, uid) ∷ references) =
    deployment_uid (if str_eq kind "Deployment" then uid else found) references

-- what is known of a replica set, before the cache is asked
unfoldable pub replica_set_info : ReplicaSet → ReplicaSetInfo
unfolding common_info deployment_uid
replica_set_info rs = record {
  common = common_info rs.meta;
  namespace = rs.meta.namespace;
  available_replicas = rs.available_replicas;
  replicas = rs.replicas;
  observed_generation = rs.observed_generation;
  ready_replicas = rs.ready_replicas;
  deployment_uid = deployment_uid "" rs.owners;
}

module _ (md5sum_data : ReplicaSetInfo → Option String) where
  -- `handleReplicaSetIncrement`
  unfoldable pub handle_replica_set_increment :
      Dict ResourceIdentifier → ReplicaSetInfo → Dict ResourceIdentifier × ReplicaSetInfo
  unfolding handle_increment
  handle_replica_set_increment ids info = handle_increment replica_set_resource md5sum_data ids info

  -- `getReplicaSetInfo`
  unfoldable pub get_replica_set_info :
      Dict ResourceIdentifier → List ReplicaSet → Dict ResourceIdentifier × List ReplicaSetInfo
  unfolding collect replica_set_info
  get_replica_set_info ids replica_sets =
      collect replica_set_resource md5sum_data (λ ids rs. replica_set_info rs) (λ info. info) ids
        replica_sets

module _ (md5sum_data : ReplicaSetInfo → Option String)
    (marshal : List ReplicaSetInfo → String ⊎ String) (opts : Options) where
  -- `reportNotExistResource`
  unfoldable pub report_not_exist_resource :
      Wire → Sent → K8sBaseCollector → (Sent × K8sBaseCollector) × Outcome (Unit {0})
  unfolding report_not_exist
  report_not_exist_resource wire sent collector =
      report_not_exist replica_set_resource md5sum_data marshal opts wire sent collector

  -- `Report`
  unfoldable pub report :
      Wire
      → Wire
      → Sent
      → K8sBaseCollector
      → Option (List ReplicaSet)
      → (Sent × K8sBaseCollector) × Outcome (Unit {0})
  unfolding report_resources replica_set_info
  report wire wire' sent collector listed =
      report_resources replica_set_resource md5sum_data marshal opts (λ ids rs. replica_set_info rs)
        wire wire' sent collector listed
