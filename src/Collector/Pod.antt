-- ===== src/Collector/Pod.antt =====
-- collector/kubernetes/pod.go: the report of the pods. The pods that the indexer lists, the selectors of
-- the services, the services' information and the MD5 sum of a pod's information are parameters.
pub mod State
pub mod Tracks
pub mod ExternalIp
use Prim.Native.String.{◌++◌ as str_append}
use chaosblade_box_agent.Prelude.{
  refl, ℕ, ◌+◌, ◌%◌, ◌^◌, String, Bool, true, false, not, ◌&&◌, ◌⊎◌, Option, none, some, List, [],
  ◌∷◌, str_eq, if◌then◌else◌, Outcome, returned, panic,
}
use chaosblade_box_agent.Prelude.Dict.{Dict, lookup, insert}
use chaosblade_box_agent.Options.{Options}
use chaosblade_box_agent.Transport.Client.{Wire, Sent}
use chaosblade_box_agent.Collector.{CommonInfo, ResourceIdentifier, PodInfo}
use chaosblade_box_agent.Collector.Metric.{K8sBaseCollector}
use chaosblade_box_agent.Collector.Increment
use chaosblade_box_agent.Collector.Increment.{
  ResourceInfo, handle_increment, collect, report_not_exist, report_listed,
}
use chaosblade_box_agent.Collector.Pod.State.{PodStatus, get_pod_state, get_pod_restart_count}

-- what `getPodInfo` reads of a `v1.Pod`; the owners are the kind and the uid of each reference
pub record Pod : Type 0 where
  pub uid : String
  pub config_hash : Option String
  pub name : String
  pub created_time : String
  pub labels : Dict String
  pub namespace : String
  pub pod_ip : String
  pub owners : List (String × String)
  pub status : PodStatus

-- an empty `PodInfo`
abbrev pub no_info : PodInfo
no_info = record {
  uid = "";
  name = "";
  created_time = "";
  labels = [];
  exist = false;
  cid = "";
  namespace = "";
  ip = "";
  restart_count = 0;
  state = "";
  daemonset_uid = "";
  daemonset_cid = "";
  service_uid = "";
  service_cid = "";
  deployment_uid = "";
  deployment_cid = "";
  replica_set_uid = "";
  replica_set_cid = "";
}

-- `handleOwnerReferences`
unfoldable pub handle_owner_references : PodInfo → List (String × String) → PodInfo
handle_owner_references info [] = info
handle_owner_references info ((kind, uid) ∷ references) =
    let replica_set = handle_owner_references (record info { replica_set_uid = uid }) references in
    let daemonset = handle_owner_references (record info { daemonset_uid = uid }) references in
    let other = handle_owner_references info references in
    if str_eq kind "ReplicaSet"
    then replica_set
    else if str_eq kind "DaemonSet"
    then daemonset
    else other

-- the information of a pod, before the cache is asked
unfoldable pub pod_info : Pod → PodInfo
unfolding handle_owner_references get_pod_state get_pod_restart_count
pod_info pod =
    handle_owner_references
      (record no_info {
        uid = elim pod.config_hash [ none ↦ pod.uid | some hash ↦ hash ];
        name = pod.name;
        created_time = pod.created_time;
        labels = pod.labels;
        exist = true;
        namespace = pod.namespace;
        ip = pod.pod_ip;
        restart_count = get_pod_restart_count pod.status;
        state = get_pod_state pod.status;
      })
      pod.owners

-- a pod's information embeds `CommonInfo`
abbrev pub common : PodInfo → CommonInfo
common info = record {
  uid = info.uid;
  name = info.name;
  created_time = info.created_time;
  labels = info.labels;
  exist = info.exist;
  cid = info.cid;
}

abbrev pub only_common : CommonInfo → PodInfo
only_common c = record no_info {
  uid = c.uid;
  name = c.name;
  created_time = c.created_time;
  labels = c.labels;
  exist = c.exist;
  cid = c.cid;
}

abbrev pub pod_resource : ResourceInfo PodInfo
pod_resource = record { common = common; only = only_common; common_only = λ c. refl }

-- what is reported of a pod that is gone
abbrev pub gone_info : ResourceIdentifier → PodInfo
gone_info v = Increment.gone_info pod_resource v

-- the loop of `reportNotExistResource`
unfoldable pub sweep : Dict ResourceIdentifier → Dict ResourceIdentifier × List PodInfo
unfolding Increment.sweep
sweep ids = Increment.sweep pod_resource ids

-- the selectors of the services, each of which may add a link
abbrev pub link : List (PodInfo → PodInfo) → PodInfo → PodInfo
link [] info = info
link (selector ∷ selectors) info = link selectors (selector info)

module _ (md5sum_data : PodInfo → Option String) where
  -- `handlePodIncrement`
  unfoldable pub handle_pod_increment :
      Dict ResourceIdentifier → PodInfo → Dict ResourceIdentifier × PodInfo
  unfolding handle_increment
  handle_pod_increment ids info = handle_increment pod_resource md5sum_data ids info

  -- `getPodInfo`
  unfoldable pub get_pod_info :
      List (PodInfo → PodInfo)
      → Dict ResourceIdentifier
      → List Pod
      → Dict ResourceIdentifier × List PodInfo
  unfolding collect pod_info
  get_pod_info selectors ids pods =
      collect pod_resource md5sum_data (λ ids pod. pod_info pod) (link selectors) ids pods

module _ (md5sum_data : PodInfo → Option String) (marshal : List PodInfo → String ⊎ String)
    (opts : Options) where
  -- `reportNotExistResource`
  unfoldable pub report_not_exist_resource :
      Wire → Sent → K8sBaseCollector → (Sent × K8sBaseCollector) × Outcome (Unit {0})
  unfolding report_not_exist
  report_not_exist_resource wire sent collector =
      report_not_exist pod_resource md5sum_data marshal opts wire sent collector

  -- `Report` with an indexer, behind `SetSelector` and `setAgentExternalIp`
  unfoldable pub report :
      Wire
      → Wire
      → Sent
      → K8sBaseCollector
      → List (PodInfo → PodInfo)
      → List Pod
      → (Sent × K8sBaseCollector) × Outcome (Unit {0})
  unfolding report_listed pod_info
  report wire wire' sent collector selectors pods =
      report_listed pod_resource md5sum_data marshal opts (λ ids pod. pod_info pod) (link selectors)
        wire wire' sent collector pods
