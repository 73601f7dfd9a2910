-- ===== src/Collector/Increment.antt =====
-- The scheme that the collectors of collector/kubernetes share: `handle…Increment`, the loop of
-- `get…Info`, `reportNotExistResource` and `Report`, over any type of information that holds a
-- `CommonInfo`. The MD5 sum of an information and its encoding are parameters.
pub mod Tracks
pub mod View
pub mod Forgets
pub mod Delivered
use chaosblade_box_agent.Prelude.{
  ◌≡◌, String, Bool, true, false, not, ◌&&◌, ◌⊎◌, Option, none, some, List, [], ◌∷◌, str_eq,
  if◌then◌else◌, Outcome, returned, panic,
}
use chaosblade_box_agent.Prelude.Dict.{Dict, lookup, insert}
use chaosblade_box_agent.Options.{Options}
use chaosblade_box_agent.Transport.Client.{Wire, Sent}
use chaosblade_box_agent.Collector.{CommonInfo, ResourceIdentifier}
use chaosblade_box_agent.Collector.Metric.{K8sBaseCollector, report_k8s_metric}

-- A type of information that embeds `CommonInfo`: the embedded part, and the value that holds
-- nothing else.
pub record ResourceInfo (A : Type 0) : Type 0 where
  pub common : A → CommonInfo
  pub only : CommonInfo → A
  pub common_only : (c : CommonInfo) → common (only c) ≡ c

-- the `CommonInfo` of a resource that has not changed, or that is gone
abbrev pub key_common : ResourceIdentifier → Bool → CommonInfo
key_common v exist = record {
  uid = v.uid;
  name = "";
  created_time = "";
  labels = [];
  exist = exist;
  cid = v.cid;
}

module _ {A : Type 0} (info : ResourceInfo A) where
  -- what is reported of a resource that has not changed, and of one that is gone
  abbrev pub key_info : ResourceIdentifier → A
  key_info v = info.only (key_common v true)

  abbrev pub gone_info : ResourceIdentifier → A
  gone_info v = info.only (key_common v false)

  -- the loop of `reportNotExistResource`: what stays in the cache, and what is reported as gone
  unfoldable pub sweep : Dict ResourceIdentifier → Dict ResourceIdentifier × List A
  sweep [] = ([], [])
  sweep ((k, v) ∷ ids) =
      let (ids', gone) = sweep ids in
      if v.curr
      then ((k, record v { curr = false }) ∷ ids', gone)
      else if str_eq v.cid ""
      then (ids', gone)
      else (ids', gone_info v ∷ gone)

module _ {A : Type 0} (info : ResourceInfo A) (md5sum_data : A → Option String) where
  -- `handle…Increment`
  unfoldable pub handle_increment : Dict ResourceIdentifier → A → Dict ResourceIdentifier × A
  unfolding lookup insert
  handle_increment ids a = elim (md5sum_data a) [
    | none ↦ (ids, a)
    | some sum_data ↦ elim (lookup ids (info.common a).uid) [
      | none ↦ (
        insert ids (info.common a).uid (record {
          uid = (info.common a).uid;
          cid = "";
          md5 = sum_data;
          curr = true;
          name = (info.common a).name;
        }),
        a,
      )
      | some v ↦
          if str_eq v.md5 sum_data && not (str_eq v.cid "")
          then (insert ids (info.common a).uid (record v { curr = true }), key_info info v)
          else (insert ids (info.common a).uid (record v { md5 = sum_data; curr = true }), a)
    ]
  ]

  -- the loop of `get…Info`: what is known of a listed resource may depend on the cache, and what is
  -- reported of it may be changed behind the cache
  unfoldable pub collect :
      {R : Type 0}
      → (Dict ResourceIdentifier → R → A)
      → (A → A)
      → Dict ResourceIdentifier
      → List R
      → Dict ResourceIdentifier × List A
  unfolding handle_increment
  collect info_of finish ids [] = (ids, [])
  collect info_of finish ids (r ∷ rs) =
      let (ids', a) = handle_increment ids (info_of ids r) in
      let (ids'', infos) = collect info_of finish ids' rs in (ids'', finish a ∷ infos)

module _ {A : Type 0} (info : ResourceInfo A) (md5sum_data : A → Option String)
    (marshal : List A → String ⊎ String) (opts : Options) where
  -- `reportNotExistResource`
  unfoldable pub report_not_exist :
      Wire → Sent → K8sBaseCollector → (Sent × K8sBaseCollector) × Outcome (Unit {0})
  unfolding sweep report_k8s_metric
  report_not_exist wire sent collector =
      let (ids, gone) = sweep info collector.identifiers in
      report_k8s_metric opts marshal wire sent (record collector { identifiers = ids }) false gone

  -- `Report`, where the resources are listed by an indexer that there is or that is made
  unfoldable pub report_listed :
      {R : Type 0}
      → (Dict ResourceIdentifier → R → A)
      → (A → A)
      → Wire
      → Wire
      → Sent
      → K8sBaseCollector
      → List R
      → (Sent × K8sBaseCollector) × Outcome (Unit {0})
  unfolding collect report_k8s_metric report_not_exist
  report_listed info_of finish wire wire' sent collector rs =
      let (ids, infos) = collect info md5sum_data info_of finish collector.identifiers rs in
      let (reported, outcome) =
        report_k8s_metric opts marshal wire sent (record collector { identifiers = ids }) true
          infos in
      elim outcome [
        | panic ↦ (reported, panic)
        | returned done ↦ report_not_exist wire' reported.0 reported.1
      ]

  -- `Report`: none where there is no indexer and no client to make one with
  unfoldable pub report_resources :
      {R : Type 0}
      → (Dict ResourceIdentifier → R → A)
      → Wire
      → Wire
      → Sent
      → K8sBaseCollector
      → Option (List R)
      → (Sent × K8sBaseCollector) × Outcome (Unit {0})
  unfolding report_listed
  report_resources info_of wire wire' sent collector listed = elim listed [
    | none ↦ ((sent, collector), returned tt)
    | some rs ↦ report_listed info_of (λ a. a) wire wire' sent collector rs
  ]
