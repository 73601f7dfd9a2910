-- ===== src/Collector/Service.antt =====
-- collector/kubernetes/service.go: the report of the services, and the selectors that link pods to
-- them. The match of a selector with labels is a parameter. The resources that the indexer lists are
-- a parameter, none where there is neither an indexer nor a client; an int32 or int64 is its value
-- modulo 2^32 or 2^64.
use chaosblade_box_agent.Prelude.{refl, String, ◌⊎◌, Option, none, some, List, [], ◌∷◌, Outcome}
use chaosblade_box_agent.Prelude.Dict.{Dict, lookup}
use chaosblade_box_agent.Options.{Options}
use chaosblade_box_agent.Transport.Uri.{Uri, uri_at}
use chaosblade_box_agent.Transport.Client.{Wire, Sent}
use chaosblade_box_agent.Collector.{CommonInfo, ResourceIdentifier}
use chaosblade_box_agent.Collector.Meta.{ObjectMeta, common_info}
use chaosblade_box_agent.Collector.Metric.{K8sBaseCollector, create_k8s_base_collector}
use chaosblade_box_agent.Collector.Increment.{
  ResourceInfo, handle_increment, collect, report_not_exist, report_resources,
}
use chaosblade_box_agent.Prelude.{Bool, true}
use chaosblade_box_agent.Collector.{PodInfo}
use chaosblade_box_agent.Collector.Links.{selector_match}
use chaosblade_box_agent.Collector.Common.{
  ServicePort, ServiceAddresses, service_ports_to_string, get_service_external_ip,
}

-- `ServiceInfo`; a nil map of the selector is the empty one
pub record ServiceInfo : Type 0 where
  pub common : CommonInfo
  pub namespace : String
  pub cluster_ip : String
  pub external_ip : String
  pub ports : List String
  pub type : String
  pub selector : Dict String

-- what is read of a `Service`; the selector is none where its map is nil
pub record Service : Type 0 where
  pub meta : ObjectMeta
  pub cluster_ip : String
  pub ports : List ServicePort
  pub addresses : ServiceAddresses
  pub selector : Option (Dict String)

abbrev pub service_only : CommonInfo → ServiceInfo
service_only c = record {
  common = c;
  namespace = "";
  cluster_ip = "";
  external_ip = "";
  ports = [];
  type = "";
  selector = [];
}

abbrev pub service_resource : ResourceInfo ServiceInfo
service_resource = record {
  common = λ info. info.common;
  only = service_only;
  common_only = λ c. refl;
}

-- `ServiceCollector`
pub record ServiceCollector : Type 0 where
  pub base : K8sBaseCollector
  pub selectors : List (PodInfo → PodInfo)

-- `NewServiceCollector`: where the address is not registered it has an empty one
unfoldable pub new_service_collector : Dict Uri → ServiceCollector
unfolding lookup create_k8s_base_collector
new_service_collector uris = record {
  base = create_k8s_base_collector "nodes" (uri_at uris "k8sService");
  selectors = [];
}

-- what is known of a service, before the cache is asked
unfoldable pub service_info : Service → ServiceInfo
unfolding common_info service_ports_to_string get_service_external_ip
service_info s = record {
  common = common_info s.meta;
  namespace = s.meta.namespace;
  cluster_ip = s.cluster_ip;
  external_ip = get_service_external_ip s.addresses true;
  ports = service_ports_to_string s.ports;
  type = s.addresses.service_type;
  selector = elim s.selector [ none ↦ [] | some selector ↦ selector ];
}

-- the selectors that `getServiceInfo` returns; `matches` is `SelectorFromSet(selector).Matches(labels)`
unfoldable pub service_selectors :
    (Dict String → Dict String → Bool) → List Service → List (PodInfo → PodInfo)
unfolding selector_match
service_selectors matches [] = []
service_selectors matches (s ∷ services) =
    let rest = service_selectors matches services in
    elim s.selector [
      | none ↦ rest
      | some selector ↦
          selector_match (matches selector) s.meta.namespace "services" s.meta.uid ∷ rest
    ]

module _ (md5sum_data : ServiceInfo → Option String) where
  -- `handleServiceIncrement`
  unfoldable pub handle_service_increment :
      Dict ResourceIdentifier → ServiceInfo → Dict ResourceIdentifier × ServiceInfo
  unfolding handle_increment
  handle_service_increment ids info = handle_increment service_resource md5sum_data ids info

  -- `getServiceInfo`
  unfoldable pub get_service_info :
      Dict ResourceIdentifier → List Service → Dict ResourceIdentifier × List ServiceInfo
  unfolding collect service_info
  get_service_info ids services =
      collect service_resource md5sum_data (λ ids s. service_info s) (λ info. info) ids services

  -- `SetSelector`: with neither an indexer nor a client the selectors stay
  unfoldable pub set_selector :
      (Dict String → Dict String → Bool)
      → ServiceCollector
      → Option (List Service)
      → ServiceCollector
  unfolding get_service_info service_selectors
  set_selector matches collector listed = elim listed [
    | none ↦ collector
    | some services ↦
        let (ids, infos) = get_service_info collector.base.identifiers services in
        record collector {
          base = record collector.base { identifiers = ids };
          selectors = service_selectors matches services;
        }
  ]

module _ (md5sum_data : ServiceInfo → Option String) (marshal : List ServiceInfo → String ⊎ String)
    (opts : Options) where
  -- `reportNotExistResource`
  unfoldable pub report_not_exist_resource :
      Wire → Sent → K8sBaseCollector → (Sent × K8sBaseCollector) × Outcome (Unit {0})
  unfolding report_not_exist
  report_not_exist_resource wire sent collector =
      report_not_exist service_resource md5sum_data marshal opts wire sent collector

  -- `Report`
  unfoldable pub report :
      Wire
      → Wire
      → Sent
      → K8sBaseCollector
      → Option (List Service)
      → (Sent × K8sBaseCollector) × Outcome (Unit {0})
  unfolding report_resources service_info
  report wire wire' sent collector listed =
      report_resources service_resource md5sum_data marshal opts (λ ids s. service_info s) wire
        wire' sent collector listed
