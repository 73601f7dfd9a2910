-- ===== src/Collector/Metric.antt =====
-- collector/kubernetes/kubernetes.go: the report of a resource to the server, and what its answer does
-- to the two caches of identifiers.
pub mod Resets
use chaosblade_box_agent.Prelude.{
  String, Bool, true, false, ◌⊎◌, inl, inr, Option, none, some, List, [], ◌∷◌, str_eq,
  if◌then◌else◌, Outcome, returned, panic,
}
use chaosblade_box_agent.Prelude.Dict.{Dict, lookup, insert}
use chaosblade_box_agent.Options.{Options}
use chaosblade_box_agent.Transport.Json.{
  Json, null, Fields, end, field, lookup_field, as_string, as_map,
}
use chaosblade_box_agent.Transport.Response.{Response}
use chaosblade_box_agent.Transport.Request.{Request, new_request, add_param}
use chaosblade_box_agent.Transport.Uri.{Uri}
use chaosblade_box_agent.Transport.Client.{Wire, Sent, Invoked, answered, failed, invoke}
use chaosblade_box_agent.Collector.{ResourceIdentifier}

-- `K8sBaseCollector`, what it keeps and what it reports under
pub record K8sBaseCollector : Type 0 where
  pub resource_name : String
  pub identifiers : Dict ResourceIdentifier
  pub second_identifiers : Dict ResourceIdentifier
  pub uri : Uri
  pub report_handler : String

-- `createK8sBaseCollector`
unfoldable pub create_k8s_base_collector : String → Uri → K8sBaseCollector
create_k8s_base_collector resource_name uri = record {
  resource_name = resource_name;
  identifiers = [];
  second_identifiers = [];
  uri = uri;
  report_handler = uri.handler_name;
}

-- `resetIdentifierCache`
unfoldable pub reset_identifier_cache : K8sBaseCollector → K8sBaseCollector
reset_identifier_cache collector = record collector { identifiers = []; second_identifiers = [] }

-- the loops that write the server's cids into a cache
unfoldable pub add_cids :
    Dict ResourceIdentifier → Fields → Dict ResourceIdentifier × Outcome (Unit {0})
unfolding lookup insert
add_cids ids end = (ids, returned tt)
add_cids ids (field key value v) = elim (lookup ids key) [
  | none ↦ add_cids ids v
  | some vi ↦ elim (as_string value) [
    | none ↦ (ids, panic)
    | some cid ↦ add_cids (insert ids key (record vi { cid = cid })) v
  ]
]

-- the value of a key, none where it is missing or nil
unfoldable pub value_of : Fields → String → Option Json
unfolding lookup_field
value_of v k = elim (lookup_field v k) [
  | none ↦ none
  | some value ↦ elim value [ null ↦ none | other ↦ some other ]
]

-- the pods' part of a virtual node's answer
unfoldable pub add_pod_cids : K8sBaseCollector → Fields → K8sBaseCollector × Outcome (Unit {0})
unfolding value_of add_cids
add_pod_cids collector v = elim (value_of v "pods") [
  | none ↦ (collector, returned tt)
  | some pods_cids ↦ elim (as_map pods_cids) [
    | none ↦ (collector, panic)
    | some cids ↦
        let (ids, outcome) = add_cids collector.second_identifiers cids in
        (record collector { second_identifiers = ids }, outcome)
  ]
]

-- the virtual nodes' part, and the pods' behind it
unfoldable pub add_virtual_node_cids :
    K8sBaseCollector → Fields → K8sBaseCollector × Outcome (Unit {0})
unfolding value_of add_cids add_pod_cids
add_virtual_node_cids collector v = elim (value_of v "virtualNodes") [
  | none ↦ add_pod_cids collector v
  | some virtual_node_cids ↦ elim (as_map virtual_node_cids) [
    | none ↦ (reset_identifier_cache collector, returned tt)
    | some cids ↦
        let (ids, outcome) = add_cids collector.identifiers cids in
        let collector = record collector { identifiers = ids } in
        elim outcome [ panic ↦ (collector, panic) | returned done ↦ add_pod_cids collector v ]
  ]
]

-- what a successful answer does
unfoldable pub accept_answer :
    K8sBaseCollector → Bool → Response → K8sBaseCollector × Outcome (Unit {0})
unfolding add_cids
accept_answer collector is_exists response =
    if is_exists
    then elim (as_map response.result) [
      | none ↦ (reset_identifier_cache collector, returned tt)
      | some v ↦
          if str_eq collector.report_handler "k8sVirtualNode"
          then add_virtual_node_cids collector v
          else (let (ids, outcome) = add_cids collector.identifiers v in
              (record collector { identifiers = ids }, outcome))
    ]
    else (collector, returned tt)

module _ {ℓ} {A : Type ℓ} (opts : Options) (marshal : List A → String ⊎ String) where
  -- the request of `reportK8sMetric`; `marshal` is `json.Marshal` of the resource
  unfoldable pub metric_request : K8sBaseCollector → List A → Request
  unfolding new_request add_param
  metric_request collector resource = elim (marshal resource) [
    | inr err ↦ new_request opts
    | inl text ↦ add_param (new_request opts) collector.resource_name text
  ]

  -- `reportK8sMetric`, where `size` is the length of the resource; AllCompress is 2
  unfoldable pub report_k8s_metric :
      Wire
      → Sent
      → K8sBaseCollector
      → Bool
      → List A
      → (Sent × K8sBaseCollector) × Outcome (Unit {0})
  unfolding metric_request
  report_k8s_metric wire sent collector is_exists [] = ((sent, collector), returned tt)
  report_k8s_metric wire sent collector is_exists (r ∷ rs) =
      let (sent', invoked) =
        invoke wire sent (record collector.uri { compress_version = "2" })
          (metric_request collector (r ∷ rs)) true in
      elim invoked [
        | failed response err ↦ ((sent', reset_identifier_cache collector), returned tt)
        | answered response ↦
            if response.success
            then (let (collector', outcome) = accept_answer collector is_exists response in
                ((sent', collector'), outcome))
            else ((sent', reset_identifier_cache collector), returned tt)
      ]
