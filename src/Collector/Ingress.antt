-- ===== src/Collector/Ingress.antt =====
-- collector/kubernetes/ingress.go: the report of the ingresses, whose rules look up the uids of their
-- services. The ingresses that the indexer lists are a parameter, none where there is neither an
-- indexer nor a client; the values of `Tls` are kept as texts.
pub mod Uids
use Prim.Native.Nat.{ℕ}
use chaosblade_box_agent.Prelude.{
  ◌≡◌, refl, String, Bool, true, not, ◌⊎◌, Option, none, some, List, [], ◌∷◌, map, reverse, ◌++◌,
  str_eq, if◌then◌else◌, Outcome,
}
use chaosblade_box_agent.Prelude.Dict.{Dict, lookup}
use chaosblade_box_agent.Prelude.Sets.{join}
use chaosblade_box_agent.Prelude.Strconv.{format_int}
use chaosblade_box_agent.Tools.Set.{add}
use chaosblade_box_agent.Options.{Options}
use chaosblade_box_agent.Transport.Uri.{Uri}
use chaosblade_box_agent.Transport.Client.{Wire, Sent}
use chaosblade_box_agent.Collector.{CommonInfo, ResourceIdentifier}
use chaosblade_box_agent.Collector.Meta.{ObjectMeta, common_info}
use chaosblade_box_agent.Collector.Pod.State.{format_int32}
use chaosblade_box_agent.Collector.Metric.{K8sBaseCollector, create_k8s_base_collector}
use chaosblade_box_agent.Collector.Increment.{
  ResourceInfo, handle_increment, collect, report_not_exist, report_resources,
}

-- `IngressBackend`
pub record IngressBackend : Type 0 where
  pub service_name : String
  pub service_port : String
  pub service_uid : String

-- `HTTPIngressPath`
pub record HttpIngressPath : Type 0 where
  pub path : String
  pub backend : IngressBackend

-- `IngressRule`, with the paths of its `HTTPIngressRuleValue`
pub record IngressRule : Type 0 where
  pub host : String
  pub paths : List HttpIngressPath

-- `IngressInfo`
pub record IngressInfo : Type 0 where
  pub common : CommonInfo
  pub namespace : String
  pub address : String
  pub annotations : Dict String
  pub tls : List String
  pub rules : List IngressRule

-- `intstr.IntOrString`: its type 0 is a number, an int32 modulo 2^32, 1 is a text, and others are
-- neither
pub data IntOrString : Type 0 where
  int_val : ℕ → IntOrString
  str_val : String → IntOrString
  other_type : IntOrString

-- what is read of a path of an `Ingress`, and of a rule, whose paths are none where `HTTP` is nil
pub record IngressPath : Type 0 where
  pub path : String
  pub service_name : String
  pub service_port : IntOrString

pub record Rule : Type 0 where
  pub host : String
  pub http : Option (List IngressPath)

-- what is read of an `Ingress`; the addresses of its load balancer are an IP and a host name each
pub record Ingress : Type 0 where
  pub meta : ObjectMeta
  pub annotations : Dict String
  pub tls : List String
  pub balancer : List (String × String)
  pub rules : List Rule

abbrev pub ingress_only : CommonInfo → IngressInfo
ingress_only c = record {
  common = c;
  namespace = "";
  address = "";
  annotations = [];
  tls = [];
  rules = [];
}

abbrev pub ingress_resource : ResourceInfo IngressInfo
ingress_resource = record {
  common = λ info. info.common;
  only = ingress_only;
  common_only = λ c. refl;
}

-- `NewIngressCollector`: none where the address is not registered
unfoldable pub new_ingress_collector : Dict Uri → Option K8sBaseCollector
unfolding lookup create_k8s_base_collector
new_ingress_collector uris = elim (lookup uris "k8sIgress") [
  | none ↦ none
  | some uri ↦ some (create_k8s_base_collector "ingresses" uri)
]

-- `getServiceUidByName`: the first key whose identifier has the name, in the order of the map
unfoldable pub get_service_uid_by_name : Dict ResourceIdentifier → String → String
get_service_uid_by_name [] service_name = ""
get_service_uid_by_name ((k, v) ∷ ids) service_name =
    let rest = get_service_uid_by_name ids service_name in
    if str_eq v.name service_name then k else rest

-- `getServicePort`
unfoldable pub get_service_port : IntOrString → String
unfolding format_int
get_service_port (int_val n) = format_int32 n
get_service_port (str_val s) = s
get_service_port other_type = ""

-- the paths of a rule
unfoldable pub ingress_paths : Dict ResourceIdentifier → List IngressPath → List HttpIngressPath
unfolding get_service_uid_by_name get_service_port
ingress_paths ids [] = []
ingress_paths ids (p ∷ paths) =
    record {
      path = p.path;
      backend = record {
        service_name = p.service_name;
        service_port = get_service_port p.service_port;
        service_uid = get_service_uid_by_name ids p.service_name;
      };
    }
    ∷ ingress_paths ids paths

-- `generateIngressRules`
unfoldable pub generate_ingress_rules : Dict ResourceIdentifier → List Rule → List IngressRule
unfolding ingress_paths
generate_ingress_rules ids [] = []
generate_ingress_rules ids (r ∷ rules) =
    record {
      host = r.host;
      paths = elim r.http [ none ↦ [] | some paths ↦ ingress_paths ids paths ];
    }
    ∷ generate_ingress_rules ids rules

-- the set of the addresses of the load balancer, in one of the orders in which `range` may meet it
unfoldable pub balancer_set : List String → List (String × String) → List String
unfolding add
balancer_set ip_set [] = ip_set
balancer_set ip_set ((ip, hostname) ∷ rest) =
    balancer_set
      (if not (str_eq ip "")
        then add ip_set ip
        else if not (str_eq hostname "")
        then add ip_set hostname
        else ip_set)
      rest

-- what is known of an ingress, from the cache of the identifiers, before the cache is asked
unfoldable pub ingress_info : Dict ResourceIdentifier → Ingress → IngressInfo
unfolding common_info balancer_set join generate_ingress_rules
ingress_info ids ing = record {
  common = common_info ing.meta;
  namespace = ing.meta.namespace;
  address = join "," (balancer_set [] ing.balancer);
  annotations = ing.annotations;
  tls = ing.tls;
  rules = generate_ingress_rules ids ing.rules;
}

module _ (md5sum_data : IngressInfo → Option String) where
  -- `handleIngressIncrement`
  unfoldable pub handle_ingress_increment :
      Dict ResourceIdentifier → IngressInfo → Dict ResourceIdentifier × IngressInfo
  unfolding handle_increment
  handle_ingress_increment ids info = handle_increment ingress_resource md5sum_data ids info

  -- `getIngressInfo`
  unfoldable pub get_ingress_info :
      Dict ResourceIdentifier → List Ingress → Dict ResourceIdentifier × List IngressInfo
  unfolding collect ingress_info
  get_ingress_info ids ingresses =
      collect ingress_resource md5sum_data ingress_info (λ info. info) ids ingresses

module _ (md5sum_data : IngressInfo → Option String) (marshal : List IngressInfo → String ⊎ String)
    (opts : Options) where
  -- `reportNotExistResource`
  unfoldable pub report_not_exist_resource :
      Wire → Sent → K8sBaseCollector → (Sent × K8sBaseCollector) × Outcome (Unit {0})
  unfolding report_not_exist
  report_not_exist_resource wire sent collector =
      report_not_exist ingress_resource md5sum_data marshal opts wire sent collector

  -- `Report`
  unfoldable pub report :
      Wire
      → Wire
      → Sent
      → K8sBaseCollector
      → Option (List Ingress)
      → (Sent × K8sBaseCollector) × Outcome (Unit {0})
  unfolding report_resources ingress_info
  report wire wire' sent collector listed =
      report_resources ingress_resource md5sum_data marshal opts ingress_info wire wire' sent
        collector listed
