-- ===== src/Collector/Pod/Tracks.antt =====
-- The cache of the pods behind a whole report.
use chaosblade_box_agent.Prelude.{
  ◌≡◌, refl, ap, ◌∙◌, arith, ◌⊎◌, inl, inr, String, false, Option, none, some, List, str_eq,
  is_some, returned, Bool-cases,
}
use chaosblade_box_agent.Prelude.Dict.{Dict, lookup, IsMap}
use chaosblade_box_agent.Options.{Options}
use chaosblade_box_agent.Transport.Json.{Fields}
use chaosblade_box_agent.Transport.Client.{Wire, Sent}
use chaosblade_box_agent.Collector.{ResourceIdentifier, PodInfo}
use chaosblade_box_agent.Collector.Metric.{K8sBaseCollector, add_cids}
use chaosblade_box_agent.Collector.Metric.Resets.{lookup-add_cids, with_cid}
use chaosblade_box_agent.Collector.Increment.Tracks.{
  Unmarked, mem, uids, tracked, swept, lookup-sweep, collected,
}
use chaosblade_box_agent.Collector.Increment.View.Follows.{add_cids-IsMap}
use chaosblade_box_agent.Collector.Increment.Delivered
use chaosblade_box_agent.Collector.Increment.Delivered.{report_listed-Delivered}
use chaosblade_box_agent.Collector.Pod.{Pod, pod_resource, pod_info, report, link}

abbrev pub pod_uid : Pod → String
pod_uid pod = (pod_info pod).uid

swept-tracked :
    (answer : Fields) (k : String) (o : Option ResourceIdentifier)
    → (is_some (swept (with_cid answer k o)) ≡ tracked o)
      × (tracked (swept (with_cid answer k o)) ≡ false)
swept-tracked answer k none = (refl, refl)
swept-tracked answer k (some v) = elim (Bool-cases v.curr) [
  | inl seen ↦ (ground arith, ground arith)
  | inr unseen ↦ (ground arith, ground arith)
]

module _ (md5sum_data : PodInfo → Option String) (marshal : List PodInfo → String ⊎ String)
    (opts : Options) (selectors : List (PodInfo → PodInfo)) (wire wire' : Wire) (sent : Sent)
    (collector : K8sBaseCollector) (pods : List Pod) where
  abbrev cache : Dict ResourceIdentifier
  cache =
      (Delivered.first_round pod_resource md5sum_data marshal opts (λ ids pod. pod_info pod)
        (link selectors) wire wire' sent collector pods).0

  -- the report of what exists is answered with a map of texts, and that of what has gone with a success,
  -- as far as there is something to report
  abbrev pub Served : Fields → Type 0
  Served answer =
      ((add_cids cache answer).1 ≡ returned tt)
      × Delivered.FirstAnswered pod_resource md5sum_data marshal opts (λ ids pod. pod_info pod)
          (link selectors) wire wire' sent collector pods answer
      × Delivered.SecondDelivered pod_resource md5sum_data marshal opts (λ ids pod. pod_info pod)
          (link selectors) wire wire' sent collector pods answer

  -- A report of the pods on a cache in which no uid stands twice and nothing is marked as seen, when
  -- every sum can be made and the collector is not that of virtual nodes. The first call is answered
  -- with a success and a map of texts and the second with a success, as far as there is something to
  -- report: the report returns, and behind it the cache knows the uids of the listed pods and no
  -- others, and marks none of them.
  pub report-Unmarked :
      (answer : Fields)
      → ((info : PodInfo) → (text : String) × (md5sum_data info ≡ some text))
      → IsMap collector.identifiers
      → Unmarked collector.identifiers
      → str_eq collector.report_handler "k8sVirtualNode" ≡ false
      → Served answer
      → let ((sent', collector'), outcome) =
          report md5sum_data marshal opts wire wire' sent collector selectors pods in
        (outcome ≡ returned tt)
        × ((k : String) → is_some (lookup collector'.identifiers k) ≡ mem k (uids pod_uid pods))
        × Unmarked collector'.identifiers
  unfolding report
  report-Unmarked answer summed h unmarked ordinary (done, is_answered, delivered) =
      let (left, returns) =
        report_listed-Delivered pod_resource md5sum_data marshal opts (λ ids pod. pod_info pod)
          (link selectors) wire wire' sent collector pods answer done is_answered ordinary
          delivered in
      let (is_map, marked) =
        collected pod_resource md5sum_data (λ ids pod. pod_info pod) (link selectors) pod_uid
          (λ ids pod. refl) summed collector.identifiers pods h in
      let at : (k : String)
          → lookup
              (report md5sum_data marshal opts wire wire' sent collector selectors
                pods).0.1.identifiers
              k
            ≡ swept (with_cid answer k (lookup cache k)) =
        λ k.
          ap (λ (c : K8sBaseCollector). lookup c.identifiers k) left
          ∙ lookup-sweep pod_resource (add_cids cache answer).0 k
              (add_cids-IsMap cache answer is_map)
          ∙ ap swept (lookup-add_cids cache answer k done) in
      (
        returns,
        λ k.
            ap (λ (o : Option ResourceIdentifier). is_some o) (at k)
            ∙ (swept-tracked answer k (lookup cache k)).0
            ∙ ground (arith, marked k, unmarked k),
        λ k.
            ap (λ (o : Option ResourceIdentifier). tracked o) (at k)
            ∙ (swept-tracked answer k (lookup cache k)).1,
      )
