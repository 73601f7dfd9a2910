-- ===== src/Collector/VirtualNode.antt =====
-- collector/kubernetes/virtualnode.go: the report of the virtual nodes with their pods. What the
-- indexers list is a parameter, and so are the MD5 sums and the encoding.
use chaosblade_box_agent.Prelude.{
  refl, String, Bool, true, false, ◌⊎◌, Option, none, some, List, [], ◌∷◌, map, str_eq,
  if◌then◌else◌, Outcome, returned, panic,
}
use chaosblade_box_agent.Prelude.Dict.{Dict, lookup}
use chaosblade_box_agent.Options.{Options}
use chaosblade_box_agent.Transport.Uri.{Uri}
use chaosblade_box_agent.Transport.Client.{Wire, Sent}
use chaosblade_box_agent.Collector.{CommonInfo, ResourceIdentifier, PodInfo}
use chaosblade_box_agent.Collector.Meta.{ObjectMeta, common_info}
use chaosblade_box_agent.Collector.Metric.{
  K8sBaseCollector, create_k8s_base_collector, report_k8s_metric,
}
use chaosblade_box_agent.Collector.Increment.{ResourceInfo, handle_increment, collect, sweep}
use chaosblade_box_agent.Collector.Node.{role_of}
use chaosblade_box_agent.Collector.Pod.{Pod, pod_info, pod_resource}

-- `NodeCapacity`
pub record NodeCapacity : Type 0 where
  pub cpu : String
  pub memory : String

-- `VirtualNodeInfo`; the `NodeSystemInfo` is kept as a text, an address is a type and a value
pub record VirtualNodeInfo : Type 0 where
  pub common : CommonInfo
  pub role : String
  pub cluster_id : String
  pub cluster_name : String
  pub node_info : String
  pub node_capacity : NodeCapacity
  pub node_addresses : List (String × String)
  pub pods : List PodInfo

-- what is read of a `Node`; the quantities of its resources are texts
pub record Node : Type 0 where
  pub meta : ObjectMeta
  pub node_info : String
  pub allocatable : Dict String
  pub addresses : List (String × String)

-- `VirtualNodeCollector`: whether it has an indexer in either of its two fields, and the nodes whose
-- pods have one
pub record VirtualNodeCollector : Type 0 where
  pub base : K8sBaseCollector
  pub indexer : Bool
  pub node_index : Bool
  pub pod_index : List String

abbrev pub virtual_node_only : CommonInfo → VirtualNodeInfo
virtual_node_only c = record {
  common = c;
  role = "";
  cluster_id = "";
  cluster_name = "";
  node_info = "";
  node_capacity = record { cpu = ""; memory = "" };
  node_addresses = [];
  pods = [];
}

abbrev pub virtual_node_resource : ResourceInfo VirtualNodeInfo
virtual_node_resource = record {
  common = λ info. info.common;
  only = virtual_node_only;
  common_only = λ c. refl;
}

-- `NewVirtualNodeCollector`: none where the address is not registered
unfoldable pub new_virtual_node_collector : Dict Uri → Option VirtualNodeCollector
unfolding lookup create_k8s_base_collector
new_virtual_node_collector uris = elim (lookup uris "k8sVirtualNode") [
  | none ↦ none
  | some uri ↦ some (record {
    base = create_k8s_base_collector "nodes" uri;
    indexer = false;
    node_index = false;
    pod_index = [];
  })
]

-- a quantity of `getNodeCapacity`, which is zero where the resource is missing
abbrev pub quantity : Dict String → String → String
quantity lists name = elim (lookup lists name) [ none ↦ "0" | some q ↦ q ]

-- `getNodeCapacity`
unfoldable pub get_node_capacity : Dict String → NodeCapacity
unfolding lookup
get_node_capacity lists = record { cpu = quantity lists "cpu"; memory = quantity lists "memory" }

-- what is known of a node, before the cache is asked
unfoldable pub virtual_node_info : Node → VirtualNodeInfo
unfolding common_info role_of get_node_capacity
virtual_node_info node = record {
  common = common_info node.meta;
  role = role_of node.meta.labels;
  cluster_id = "";
  cluster_name = "";
  node_info = node.node_info;
  node_capacity = get_node_capacity node.allocatable;
  node_addresses = node.addresses;
  pods = [];
}

-- what is known of a pod of a node: no owner is looked at
unfoldable pub node_pod_info : Pod → PodInfo
unfolding pod_info
node_pod_info pod = pod_info (record pod { owners = [] })

-- the loop that notes which nodes have an index of their pods
abbrev pub index_pods : List String → String → List String
index_pods [] name = name ∷ []
index_pods (n ∷ names) name =
    let rest = index_pods names name in if str_eq n name then n ∷ names else n ∷ rest

module _ (md5sum_node : VirtualNodeInfo → Option String) (md5sum_pod : PodInfo → Option String)
    (pods_on : String → List Pod) where
  -- `handleVirtualNodeIncrement`
  unfoldable pub handle_virtual_node_increment :
      Dict ResourceIdentifier → VirtualNodeInfo → Dict ResourceIdentifier × VirtualNodeInfo
  unfolding handle_increment
  handle_virtual_node_increment ids info =
      handle_increment virtual_node_resource md5sum_node ids info

  -- `handlePodInfoIncrement`
  unfoldable pub handle_pod_info_increment :
      Dict ResourceIdentifier → PodInfo → Dict ResourceIdentifier × PodInfo
  unfolding handle_increment
  handle_pod_info_increment ids info = handle_increment pod_resource md5sum_pod ids info

  -- `getPods`, which fails nowhere
  unfoldable pub get_pods : VirtualNodeCollector → Node → VirtualNodeCollector × List PodInfo
  unfolding collect node_pod_info
  get_pods collector node =
      let (ids, pods) =
        collect pod_resource md5sum_pod (λ ids pod. node_pod_info pod) (λ info. info)
          collector.base.second_identifiers (pods_on node.meta.name) in
      (
        record collector {
          base = record collector.base { second_identifiers = ids };
          pod_index = index_pods collector.pod_index node.meta.name;
        },
        pods,
      )

  -- the loop of `getVirtualNodeInfo`
  unfoldable pub virtual_nodes :
      VirtualNodeCollector → List Node → VirtualNodeCollector × List VirtualNodeInfo
  unfolding virtual_node_info handle_virtual_node_increment get_pods
  virtual_nodes collector [] = (collector, [])
  virtual_nodes collector (node ∷ nodes) =
      let (ids, info) =
        handle_virtual_node_increment collector.base.identifiers (virtual_node_info node) in
      let (collector', pods) =
        get_pods (record collector { base = record collector.base { identifiers = ids } }) node in
      let (collector'', infos) = virtual_nodes collector' nodes in
      (collector'', record info { pods = pods } ∷ infos)

  -- `getVirtualNodeInfo`: a call of the missing indexer panics
  unfoldable pub get_virtual_node_info :
      VirtualNodeCollector → List Node → VirtualNodeCollector × Outcome (List VirtualNodeInfo)
  unfolding virtual_nodes
  get_virtual_node_info collector nodes =
      if collector.node_index
      then (let (collector', infos) = virtual_nodes collector nodes in (collector', returned infos))
      else (collector, panic)

module _ (md5sum_node : VirtualNodeInfo → Option String) (md5sum_pod : PodInfo → Option String)
    (pods_on : String → List Pod) (marshal : List VirtualNodeInfo → String ⊎ String)
    (opts : Options) where
  -- `reportNotExistResource`: the pods that are gone go with each node that is gone
  unfoldable pub report_not_exist_resource :
      Wire → Sent → VirtualNodeCollector → (Sent × VirtualNodeCollector) × Outcome (Unit {0})
  unfolding sweep report_k8s_metric
  report_not_exist_resource wire sent collector =
      let (pod_ids, pods) = sweep pod_resource collector.base.second_identifiers in
      let (ids, nodes) = sweep virtual_node_resource collector.base.identifiers in
      let base = record collector.base { identifiers = ids; second_identifiers = pod_ids } in
      let ((sent', base'), outcome) =
        report_k8s_metric opts marshal wire sent base true
          (map (λ (info : VirtualNodeInfo). record info { pods = pods }) nodes) in
      ((sent', record collector { base = base' }), outcome)

  -- `Report`, where `client` tells whether there is a client to make an indexer with
  unfoldable pub report :
      Bool
      → Wire
      → Wire
      → Sent
      → VirtualNodeCollector
      → List Node
      → (Sent × VirtualNodeCollector) × Outcome (Unit {0})
  unfolding get_virtual_node_info report_k8s_metric report_not_exist_resource
  report client wire wire' sent collector nodes =
      let reported : (Sent × VirtualNodeCollector) × Outcome (Unit {0}) =
        (let (collector', listed) =
            get_virtual_node_info md5sum_node md5sum_pod pods_on
              (record collector { indexer = true }) nodes in
          elim listed [
            | panic ↦ ((sent, collector'), panic)
            | returned infos ↦
                let ((sent', base), outcome) =
                  report_k8s_metric opts marshal wire sent collector'.base true infos in
                elim outcome [
                  | panic ↦ ((sent', record collector' { base = base }), panic)
                  | returned done ↦
                      report_not_exist_resource wire' sent' (record collector' { base = base })
                ]
          ]) in
      if collector.indexer
      then reported
      else if client
      then reported
      else ((sent, collector), returned tt)
