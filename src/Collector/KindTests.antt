-- ===== src/Collector/KindTests.antt =====
-- The collectors of the several kinds of resources on small inputs.
use chaosblade_box_agent.Prelude.{
  ◌≡◌, refl, ◌⊎◌, inl, inr, String, Bool, true, false, Option, none, some, List, [], ◌∷◌, ◌++◌,
  length, All, returned,
}
use chaosblade_box_agent.Prelude.Dict.{Dict, lookup, get, insert}
use chaosblade_box_agent.Transport.Interceptor.{invoke as chain_invoke, build_interceptor}
use chaosblade_box_agent.Transport.Request.{add_param}
use chaosblade_box_agent.Transport.Client.{Wire, failed, invoke, transmit}
use chaosblade_box_agent.Transport.Client.Sends.{Succeeds}
use chaosblade_box_agent.Transport.Samples.{some_options, some_wire, some_uri}
use chaosblade_box_agent.Collector.{ResourceIdentifier, PodInfo}
use chaosblade_box_agent.Collector.Metric.{K8sBaseCollector, metric_request}
use chaosblade_box_agent.Collector.Increment
use chaosblade_box_agent.Collector.Increment.{report_listed, collect}
use chaosblade_box_agent.Collector.Increment.Forgets.{
  first_report, first_sent, report_listed-forgets,
}
use chaosblade_box_agent.Collector.Meta.{ObjectMeta}
use chaosblade_box_agent.Collector.Namespace.{NamespaceInfo, namespace_info, namespace_resource}
use chaosblade_box_agent.Collector.Ingress.{
  Ingress, IngressInfo, get_service_uid_by_name, get_ingress_info,
}
use chaosblade_box_agent.Collector.Ingress.Uids.{Listed}
use chaosblade_box_agent.Collector.Ingress.Uids.Finds.{
  Cached, emptied, listed, get_service_uid_by_name-Listed,
}
use chaosblade_box_agent.Collector.Watchers.{ListerWatcher, list_one, multi_list, multi_watch}
use chaosblade_box_agent.Collector.Watchers.Versions.{
  Without, own_versions, own_watches, gather, multi_watch-multi_list,
}
use chaosblade_box_agent.Collector.Service.{Service, service_selectors}
use chaosblade_box_agent.Collector.Pod.{Pod, pod_info, pod_resource, get_pod_info}
use chaosblade_box_agent.Collector.PodReport.Links.{get_pod_info-unchanged}

abbrev meta_of : String → String → ObjectMeta
meta_of uid name = record {
  uid = uid;
  name = name;
  created_time = "2025";
  labels = ("app", "web") ∷ [];
  namespace = "default";
}

-- a namespace report that the server cannot be reached for
abbrev cut_wire : Wire
cut_wire = record some_wire { do_invoker = λ uri text. inr "connection refused" }

abbrev sum_of : NamespaceInfo → Option String
sum_of info = some "m"

abbrev marshal_all : List NamespaceInfo → String ⊎ String
marshal_all _ = inl "[]"

abbrev gone_cache : Dict ResourceIdentifier
gone_cache = ("g1", record { uid = "g1"; cid = "c1"; md5 = "m"; curr = false; name = "old" }) ∷ []

abbrev collector : K8sBaseCollector
collector = record {
  resource_name = "nodes";
  identifiers = gone_cache;
  second_identifiers = [];
  uri = some_uri;
  report_handler = "chaos/k8sNamespace";
}

abbrev info_of : Dict ResourceIdentifier → ObjectMeta → NamespaceInfo
info_of ids ns = namespace_info ns

abbrev same : NamespaceInfo → NamespaceInfo
same info = info

cut_report :
    first_report namespace_resource sum_of marshal_all some_options info_of same cut_wire some_wire
      [] collector
      (meta_of "n1" "default")
      []
    ≡ failed none "connection refused"
unfolding invoke transmit chain_invoke build_interceptor get insert add_param metric_request
cut_report = refl

cut_fails :
    Succeeds (
      first_report namespace_resource sum_of marshal_all some_options info_of same cut_wire
        some_wire [] collector
        (meta_of "n1" "default")
        [])
    → ⊥
cut_fails (response, e, s) = cc (cut_report, e)

report_listed-forgets_example :
    report_listed namespace_resource sum_of marshal_all some_options info_of same cut_wire some_wire
      [] collector
      (meta_of "n1" "default" ∷ [])
    ≡ (
      (
        first_sent namespace_resource sum_of marshal_all some_options info_of same cut_wire
            some_wire [] collector
            (meta_of "n1" "default")
            [],
        record collector { identifiers = []; second_identifiers = [] },
      ),
      returned tt,
    )
report_listed-forgets_example =
    report_listed-forgets namespace_resource sum_of marshal_all some_options info_of same cut_wire
      some_wire [] collector (meta_of "n1" "default") [] cut_fails

-- an ingress whose name is that of its service
abbrev shop : Ingress
shop = record {
  meta = meta_of "i1" "shop";
  annotations = [];
  tls = [];
  balancer = ("1.2.3.4", "") ∷ [];
  rules = [];
}

abbrev ingress_sum : IngressInfo → Option String
ingress_sum info = some "m"

shop_cached : Cached ingress_sum (shop ∷ []) (get_ingress_info ingress_sum [] (shop ∷ [])).0
shop_cached =
    listed (shop ∷ []) (shop ∷ []) (get_ingress_info ingress_sum [] (shop ∷ [])).0 (emptied []) refl
      refl

get_service_uid_by_name-Listed_example :
    (get_service_uid_by_name (get_ingress_info ingress_sum [] (shop ∷ [])).0 "shop" ≡ "")
    ⊎ Listed
        (shop ∷ [])
        (get_service_uid_by_name (get_ingress_info ingress_sum [] (shop ∷ [])).0 "shop")
        "shop"
get_service_uid_by_name-Listed_example =
    get_service_uid_by_name-Listed ingress_sum "shop" shop_cached

shop_found : get_service_uid_by_name (get_ingress_info ingress_sum [] (shop ∷ [])).0 "shop" ≡ "i1"
unfolding get_service_uid_by_name get_ingress_info
shop_found = refl

abbrev pod_sum : PodInfo → Option String
pod_sum info = some "m"

-- two namespaces
abbrev lister : String → ListerWatcher String
lister version = record {
  list = inr (record { items = inr (version ∷ []); resource_version = inr version });
  watch = λ v. inr (v ∷ []);
}

listers_list : multi_list (lister "17" ∷ lister "42" ∷ []) ≡ inr ("17" ∷ "42" ∷ [], "17/42")
unfolding multi_list
listers_list = refl

listers_slashless : All (Without "/") (own_versions (lister "17" ∷ lister "42" ∷ []))
unfolding list_one
listers_slashless = ((refl, (refl, tt)), ((refl, (refl, tt)), tt))

multi_watch-multi_list_example :
    multi_watch (lister "17" ∷ lister "42" ∷ []) "17/42"
    ≡ gather (own_watches (lister "17" ∷ lister "42" ∷ []))
multi_watch-multi_list_example =
    multi_watch-multi_list (lister "17" ∷ lister "42" ∷ []) ("17" ∷ "42" ∷ []) "17/42" listers_list
      listers_slashless

-- a service that selects a pod that is known
abbrev web_pod : Pod
web_pod = record {
  uid = "p1";
  config_hash = none;
  name = "web";
  created_time = "2025";
  labels = ("app", "web") ∷ [];
  namespace = "default";
  pod_ip = "10.1.0.7";
  owners = [];
  status = record {
    phase = "Running";
    reason = "";
    init_container_statuses = [];
    init_containers = 0;
    container_statuses = [];
    deletion_timestamp = false;
  };
}

abbrev web_service : Service
web_service = record {
  meta = meta_of "s1" "web";
  cluster_ip = "10.0.0.1";
  ports = [];
  addresses = record {
    service_type = "ClusterIP";
    external_ips = [];
    external_name = "";
    ingress = [];
  };
  selector = some (("app", "web") ∷ []);
}

abbrev match_all : Dict String → Dict String → Bool
match_all selector labels = true

abbrev known_pod : ResourceIdentifier
known_pod = record { uid = "p1"; cid = "c1"; md5 = "m"; curr = false; name = "web" }

web_known : lookup (("p1", known_pod) ∷ []) (pod_info web_pod).uid ≡ some known_pod
unfolding pod_info lookup
web_known = refl

abbrev other_pod : Pod
other_pod = record web_pod { uid = "p0"; name = "db" }

get_pod_info-unchanged_example :
    (front rest : List PodInfo) × (length front ≡ 1)
    × ((get_pod_info pod_sum
          (service_selectors match_all (web_service ∷ []))
          (("p1", known_pod) ∷ [])
          (other_pod ∷ web_pod ∷ [])).1
        ≡ front ++ Increment.key_info pod_resource known_pod ∷ rest)
unfolding pod_info
get_pod_info-unchanged_example =
    get_pod_info-unchanged pod_sum match_all (web_service ∷ []) (("p1", known_pod) ∷ [])
      (other_pod ∷ []) web_pod [] known_pod ((λ e. cc e), tt) refl web_known refl (λ e. cc e)
