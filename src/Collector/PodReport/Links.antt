-- ===== src/Collector/PodReport/Links.antt =====
-- The links of a pod that has not changed.
use chaosblade_box_agent.Prelude.{
  ◌≡◌, ◌≢◌, ℕ, suc, refl, ap, ◌∙◌, inl, inr, arith, String, Bool, true, false, Option, ◌++◌, length,
  str_eq, some, List, [], ◌∷◌, All, Option-cases, eq_iff,
}
use chaosblade_box_agent.Prelude.Dict.{Dict, lookup, insert, lookup-insert}
use chaosblade_box_agent.Collector.{ResourceIdentifier, PodInfo}
use chaosblade_box_agent.Collector.Links.{selector_match}
use chaosblade_box_agent.Collector.Service.{Service, service_selectors}
use chaosblade_box_agent.Collector.Increment
use chaosblade_box_agent.Collector.Increment.{handle_increment, collect}
use chaosblade_box_agent.Collector.Increment.Tracks.{mem, uids}
use chaosblade_box_agent.Collector.Pod.Tracks.{pod_uid}
use chaosblade_box_agent.Collector.Pod.{Pod, pod_info, pod_resource, get_pod_info, link}

-- every service has a namespace
abbrev pub Namespaced : Service → Type 0
Namespaced s = s.meta.namespace ≢ ""

link-key_info :
    (matches : Dict String → Dict String → Bool) (services : List Service) (v : ResourceIdentifier)
    → All Namespaced services
    → link (service_selectors matches services) (Increment.key_info pod_resource v)
      ≡ Increment.key_info pod_resource v
unfolding service_selectors selector_match
link-key_info matches [] v h = refl
link-key_info matches (s ∷ services) v (named, h) = elim (Option-cases s.selector) [
  | inl unselected ↦ ground (arith, link-key_info matches services v h)
  | inr (selector, selects) ↦
      ground (arith, eq_iff s.meta.namespace "", link-key_info matches services v h)
]

handle_increment_same :
    (md5sum_data : PodInfo → Option String) (ids : Dict ResourceIdentifier) (a : PodInfo)
    (v : ResourceIdentifier)
    → lookup ids a.uid ≡ some v
    → md5sum_data a ≡ some v.md5
    → v.cid ≢ ""
    → (handle_increment pod_resource md5sum_data ids a).1 ≡ Increment.key_info pod_resource v
unfolding handle_increment
handle_increment_same md5sum_data ids a v known same cid =
    ground (arith, eq_iff v.md5 v.md5, eq_iff v.cid "")

insert_other :
    (ids : Dict ResourceIdentifier) (j k : String) (v : ResourceIdentifier)
    → str_eq j k ≡ false
    → lookup (insert ids j v) k ≡ lookup ids k
insert_other ids j k v other = ground (arith, lookup-insert ids j k v)

handle_increment_other :
    (md5sum_data : PodInfo → Option String) (ids : Dict ResourceIdentifier) (a : PodInfo)
    (k : String)
    → str_eq a.uid k ≡ false
    → lookup (handle_increment pod_resource md5sum_data ids a).0 k ≡ lookup ids k
unfolding handle_increment
handle_increment_other md5sum_data ids a k other = elim (Option-cases (md5sum_data a)) [
  | inl unsummed ↦ ground arith
  | inr (text, summed) ↦ elim (Option-cases (lookup ids a.uid)) [
    | inl new ↦
        let v : ResourceIdentifier = record {
          uid = a.uid;
          cid = "";
          md5 = text;
          curr = true;
          name = a.name;
        } in
        ground (arith, insert_other ids a.uid k v other)
    | inr (v, known) ↦ ground (
      arith,
      insert_other ids a.uid k (record v { curr = true }) other,
      insert_other ids a.uid k (record v { md5 = text; curr = true }) other,
    )
  ]
]

-- `collect` behind the resources of the list's front
collect-split :
    (md5sum_data : PodInfo → Option String) (finish : PodInfo → PodInfo)
    (ids : Dict ResourceIdentifier) (before pods : List Pod) (k : String)
    → mem k (uids pod_uid before) ≡ false
    → (ids' : Dict ResourceIdentifier) × (front : List PodInfo) × (length front ≡ length before)
      × (lookup ids' k ≡ lookup ids k)
      × ((collect pod_resource md5sum_data (λ ids pod. pod_info pod) finish ids (before ++ pods)).1
          ≡ front
            ++ (collect pod_resource md5sum_data (λ ids pod. pod_info pod) finish ids' pods).1)
unfolding collect
collect-split md5sum_data finish ids [] pods k absent = (ids, [], refl, refl, refl)
collect-split md5sum_data finish ids (p ∷ before) pods k absent =
    let step = handle_increment pod_resource md5sum_data ids (pod_info p) in
    let (ids', front, counted, kept, rest) =
      collect-split md5sum_data finish step.0 before pods k (ground arith) in
    (
      ids',
      finish step.1 ∷ front,
      ap (λ (n : ℕ). suc n) counted,
      kept ∙ handle_increment_other md5sum_data ids (pod_info p) k (ground arith),
      ap (λ (l : List PodInfo). finish step.1 ∷ l) rest,
    )

-- Where every service has a namespace: a pod that the cache knows with a cid and with the sum that it
-- has, and whose uid no pod before it in the list has, is reported in short at its place, whatever the
-- services select: links that have changed since the pod was reported in full are not sent.
pub get_pod_info-unchanged :
    (md5sum_data : PodInfo → Option String) (matches : Dict String → Dict String → Bool)
    (services : List Service) (ids : Dict ResourceIdentifier) (before : List Pod) (pod : Pod)
    (after : List Pod) (v : ResourceIdentifier)
    → All Namespaced services
    → mem (pod_uid pod) (uids pod_uid before) ≡ false
    → lookup ids (pod_info pod).uid ≡ some v
    → md5sum_data (pod_info pod) ≡ some v.md5
    → v.cid ≢ ""
    → (front rest : List PodInfo) × (length front ≡ length before)
      × ((get_pod_info md5sum_data
            (service_selectors matches services)
            ids
            (before ++ pod ∷ after)).1
          ≡ front ++ Increment.key_info pod_resource v ∷ rest)
unfolding get_pod_info collect
get_pod_info-unchanged md5sum_data matches services ids before pod after v named first known same
      cid =
    let selectors = service_selectors matches services in
    let (ids', front, counted, kept, split) =
      collect-split md5sum_data (link selectors) ids before (pod ∷ after) (pod_uid pod) first in
    let ids2 = (handle_increment pod_resource md5sum_data ids' (pod_info pod)).0 in
    let rest : List PodInfo =
      (collect pod_resource md5sum_data (λ ids pod. pod_info pod) (link selectors) ids2 after).1 in
    let short =
      ap (link selectors)
        (handle_increment_same md5sum_data ids' (pod_info pod) v (kept ∙ known) same cid)
      ∙ link-key_info matches services v named in
    (front, rest, counted, split ∙ ap (λ (info : PodInfo). front ++ info ∷ rest) short)
