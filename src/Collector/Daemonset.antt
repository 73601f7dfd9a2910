-- ===== src/Collector/Daemonset.antt =====
-- collector/kubernetes/daemonset.go: the report of the daemon sets. The resources that the indexer lists are
-- a parameter, none where there is neither an indexer nor a client; an int32 or int64 is its value
-- modulo 2^32 or 2^64.
use chaosblade_box_agent.Prelude.{refl, ℕ, String, ◌⊎◌, Option, none, some, List, Outcome}
use chaosblade_box_agent.Prelude.Dict.{Dict, lookup}
use chaosblade_box_agent.Options.{Options}
use chaosblade_box_agent.Transport.Uri.{Uri}
use chaosblade_box_agent.Transport.Client.{Wire, Sent}
use chaosblade_box_agent.Collector.{CommonInfo, ResourceIdentifier}
use chaosblade_box_agent.Collector.Meta.{ObjectMeta, common_info}
use chaosblade_box_agent.Collector.Metric.{K8sBaseCollector, create_k8s_base_collector}
use chaosblade_box_agent.Collector.Increment.{
  ResourceInfo, handle_increment, collect, report_not_exist, report_resources,
}

-- `DaemonsetInfo`
pub record DaemonsetInfo : Type 0 where
  pub common : CommonInfo
  pub namespace : String
  pub current_number_scheduled : ℕ
  pub desired_number_scheduled : ℕ
  pub number_available : ℕ
  pub number_misscheduled : ℕ
  pub number_ready : ℕ
  pub observed_generation : ℕ
  pub updated_number_scheduled : ℕ
  pub update_strategy : String

-- what is read of a `DaemonSet`
pub record DaemonSet : Type 0 where
  pub meta : ObjectMeta
  pub current_number_scheduled : ℕ
  pub desired_number_scheduled : ℕ
  pub number_available : ℕ
  pub number_misscheduled : ℕ
  pub number_ready : ℕ
  pub updated_number_scheduled : ℕ
  pub update_strategy_type : String

abbrev pub daemonset_only : CommonInfo → DaemonsetInfo
daemonset_only c = record {
  common = c;
  namespace = "";
  current_number_scheduled = 0;
  desired_number_scheduled = 0;
  number_available = 0;
  number_misscheduled = 0;
  number_ready = 0;
  observed_generation = 0;
  updated_number_scheduled = 0;
  update_strategy = "";
}

abbrev pub daemonset_resource : ResourceInfo DaemonsetInfo
daemonset_resource = record {
  common = λ info. info.common;
  only = daemonset_only;
  common_only = λ c. refl;
}

-- `NewDaemonsetCollector`: none where the address is not registered
unfoldable pub new_daemonset_collector : Dict Uri → Option K8sBaseCollector
unfolding lookup create_k8s_base_collector
new_daemonset_collector uris = elim (lookup uris "k8sDaemonset") [
  | none ↦ none
  | some uri ↦ some (create_k8s_base_collector "daemonsets" uri)
]

-- what is known of a daemon set, before the cache is asked; its observed generation stays zero
unfoldable pub daemonset_info : DaemonSet → DaemonsetInfo
unfolding common_info
daemonset_info d = record {
  common = common_info d.meta;
  namespace = d.meta.namespace;
  current_number_scheduled = d.current_number_scheduled;
  desired_number_scheduled = d.desired_number_scheduled;
  number_available = d.number_available;
  number_misscheduled = d.number_misscheduled;
  number_ready = d.number_ready;
  observed_generation = 0;
  updated_number_scheduled = d.updated_number_scheduled;
  update_strategy = d.update_strategy_type;
}

module _ (md5sum_data : DaemonsetInfo → Option String) where
  -- `handleDaemonsetIncrement`
  unfoldable pub handle_daemonset_increment :
      Dict ResourceIdentifier → DaemonsetInfo → Dict ResourceIdentifier × DaemonsetInfo
  unfolding handle_increment
  handle_daemonset_increment ids info = handle_increment daemonset_resource md5sum_data ids info

  -- `getDaemonsetInfo`
  unfoldable pub get_daemonset_info :
      Dict ResourceIdentifier → List DaemonSet → Dict ResourceIdentifier × List DaemonsetInfo
  unfolding collect daemonset_info
  get_daemonset_info ids daemonsets =
      collect daemonset_resource md5sum_data (λ ids d. daemonset_info d) (λ info. info) ids
        daemonsets

module _ (md5sum_data : DaemonsetInfo → Option String)
    (marshal : List DaemonsetInfo → String ⊎ String) (opts : Options) where
  -- `reportNotExistResource`
  unfoldable pub report_not_exist_resource :
      Wire → Sent → K8sBaseCollector → (Sent × K8sBaseCollector) × Outcome (Unit {0})
  unfolding report_not_exist
  report_not_exist_resource wire sent collector =
      report_not_exist daemonset_resource md5sum_data marshal opts wire sent collector

  -- `Report`
  unfoldable pub report :
      Wire
      → Wire
      → Sent
      → K8sBaseCollector
      → Option (List DaemonSet)
      → (Sent × K8sBaseCollector) × Outcome (Unit {0})
  unfolding report_resources daemonset_info
  report wire wire' sent collector listed =
      report_resources daemonset_resource md5sum_data marshal opts (λ ids d. daemonset_info d) wire
        wire' sent collector listed
