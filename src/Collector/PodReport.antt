-- ===== src/Collector/PodReport.antt =====
-- collector/kubernetes/pod.go: a whole `Report` of the pod collector, which sets the selectors of the
-- service collector and the address of the agent before it reports. What the indexers list, the sums,
-- the encoding and the match of a selector are parameters.
pub mod Links
use chaosblade_box_agent.Prelude.{
  ◌≡◌, refl, String, Bool, true, false, ◌⊎◌, Option, none, some, List, [], ◌∷◌, map, str_eq,
  if◌then◌else◌, Outcome, returned, panic,
}
use chaosblade_box_agent.Prelude.Dict.{Dict, lookup}
use chaosblade_box_agent.Options.{Options}
use chaosblade_box_agent.Transport.Uri.{Uri}
use chaosblade_box_agent.Transport.Client.{Wire, Sent}
use chaosblade_box_agent.Collector.{ResourceIdentifier, PodInfo}
use chaosblade_box_agent.Collector.Metric.{K8sBaseCollector, create_k8s_base_collector}
use chaosblade_box_agent.Collector.Service.{
  Service, ServiceInfo, ServiceCollector, set_selector, get_service_info,
}
use chaosblade_box_agent.Collector.Pod.{Pod, report}
use chaosblade_box_agent.Collector.Pod.ExternalIp.{set_agent_external_ip}

-- `PodCollector`, with the service collector that it holds, and the options that it may change
pub record PodCollector : Type 0 where
  pub base : K8sBaseCollector
  pub service : ServiceCollector
  pub opts : Options

-- `NewPodCollector`: none where the address is not registered
unfoldable pub new_pod_collector : Dict Uri → ServiceCollector → Options → Option PodCollector
unfolding lookup create_k8s_base_collector
new_pod_collector uris service opts = elim (lookup uris "k8sPod") [
  | none ↦ none
  | some uri ↦
      some (record { base = create_k8s_base_collector "pods" uri; service = service; opts = opts })
]

-- the name and the external address of a service
abbrev pub name_and_ip : ServiceInfo → String × String
name_and_ip info = (info.common.name, info.external_ip)

module _ (md5sum_service : ServiceInfo → Option String) (md5sum_pod : PodInfo → Option String)
    (matches : Dict String → Dict String → Bool) (marshal : List PodInfo → String ⊎ String) where
  -- `setAgentExternalIp`, with its call of `getServiceInfo`, which panics without an indexer
  unfoldable pub set_agent_ip :
      PodCollector → Option (List Service) → PodCollector × Outcome (Unit {0})
  unfolding get_service_info set_agent_external_ip
  set_agent_ip collector listed =
      if str_eq collector.opts.local_ip ""
      then elim listed [
        | none ↦ (collector, panic)
        | some services ↦
            let base = collector.service.base in
            let (ids, infos) = get_service_info md5sum_service base.identifiers services in
            (
              record collector {
                service = record collector.service { base = record base { identifiers = ids } };
                opts = set_agent_external_ip collector.opts (map name_and_ip infos);
              },
              returned tt,
            )
      ]
      else (collector, returned tt)

  -- `Report`: the services and the pods are none where there is neither an indexer nor a client
  unfoldable pub report_pods :
      Wire
      → Wire
      → Sent
      → PodCollector
      → Option (List Service)
      → Option (List Pod)
      → (Sent × PodCollector) × Outcome (Unit {0})
  unfolding set_selector set_agent_ip report
  report_pods wire wire' sent collector services listed = elim listed [
    | none ↦ ((sent, collector), returned tt)
    | some pods ↦
        let selected = record collector {
          service = set_selector md5sum_service matches collector.service services;
        } in
        let (located, outcome) = set_agent_ip selected services in
        elim outcome [
          | panic ↦ ((sent, located), panic)
          | returned done ↦
              let ((sent', base), outcome') =
                report md5sum_pod marshal located.opts wire wire' sent located.base
                  located.service.selectors pods in
              ((sent', record located { base = base }), outcome')
        ]
  ]
