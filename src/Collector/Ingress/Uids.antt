-- ===== src/Collector/Ingress/Uids.antt =====
-- What the cache of the collector of ingresses holds: its keys are uids of ingresses.
pub mod Finds
use chaosblade_box_agent.Prelude.{
  ◌≡◌, refl, ◌⊎◌, inl, inr, arith, String, Bool, true, false, not, ◌&&◌, Option, none, some, List,
  [], subst, sym, ap, ◌++◌, ◌∷◌, str_eq, if◌then◌else◌, Bool-cases, Option-cases, eq_iff,
}
use chaosblade_box_agent.Prelude.Dict.{Dict, lookup, insert}
use chaosblade_box_agent.Collector.{ResourceIdentifier}
use chaosblade_box_agent.Collector.Increment.{handle_increment, collect, sweep}
use chaosblade_box_agent.Collector.Meta.{common_info}
use chaosblade_box_agent.Collector.Increment.View.{entry, handle_increment_lem}
use chaosblade_box_agent.Collector.Metric.{add_cids}
use chaosblade_box_agent.Collector.Ingress.{
  Ingress, IngressInfo, IngressPath, HttpIngressPath, ingress_resource, ingress_info, ingress_paths,
  get_service_uid_by_name, get_ingress_info,
}

-- an ingress of the list has the uid and the name
abbrev pub Listed : List Ingress → String → String → Type 0
Listed [] uid name = ⊥
Listed (ing ∷ ingresses) uid name =
    ((ing.meta.uid ≡ uid) × (ing.meta.name ≡ name)) ⊎ Listed ingresses uid name

abbrev pub Among : Ingress → List Ingress → Type 0
Among ing [] = ⊥
Among ing (other ∷ ingresses) = (other ≡ ing) ⊎ Among ing ingresses

pub Listed-among :
    (ing : Ingress) (ingresses seen : List Ingress)
    → Among ing ingresses
    → Listed (ingresses ++ seen) ing.meta.uid ing.meta.name
Listed-among ing [] seen m = elim m [ ]
Listed-among ing (other ∷ ingresses) seen (inl e) =
    inl (ap (λ (i : Ingress). i.meta.uid) e, ap (λ (i : Ingress). i.meta.name) e)
Listed-among ing (other ∷ ingresses) seen (inr m) = inr (Listed-among ing ingresses seen m)

-- each identifier is under the uid of an ingress that has its name
abbrev pub OfIngresses : List Ingress → Dict ResourceIdentifier → Type 0
OfIngresses seen [] = Unit
OfIngresses seen ((k, v) ∷ ids) = Listed seen k v.name × OfIngresses seen ids

pub Listed-append :
    (new seen : List Ingress) (uid name : String)
    → Listed seen uid name
    → Listed (new ++ seen) uid name
Listed-append [] seen uid name h = h
Listed-append (ing ∷ new) seen uid name h = inr (Listed-append new seen uid name h)

pub OfIngresses-append :
    (new seen : List Ingress) (ids : Dict ResourceIdentifier)
    → OfIngresses seen ids
    → OfIngresses (new ++ seen) ids
OfIngresses-append new seen [] h = tt
OfIngresses-append new seen ((k, v) ∷ ids) (l, h) =
    (Listed-append new seen k v.name l, OfIngresses-append new seen ids h)

pub OfIngresses-lookup :
    (seen : List Ingress) (ids : Dict ResourceIdentifier) (k : String) (v : ResourceIdentifier)
    → OfIngresses seen ids
    → lookup ids k ≡ some v
    → Listed seen k v.name
unfolding lookup
OfIngresses-lookup seen [] k v h e = cc
OfIngresses-lookup seen ((j, w) ∷ ids) k v (l, h) e = elim (Bool-cases (str_eq j k)) [
  | inl same ↦
      let ew : w ≡ v = ground arith in
      let ej : j ≡ k = (eq_iff j k).0 same in
      subst (λ (u : ResourceIdentifier). Listed seen k u.name) ew
        (subst (λ (u : String). Listed seen u w.name) ej l)
  | inr other ↦ OfIngresses-lookup seen ids k v h (ground arith)
]

pub OfIngresses-insert :
    (seen : List Ingress) (ids : Dict ResourceIdentifier) (k : String) (v : ResourceIdentifier)
    → OfIngresses seen ids
    → Listed seen k v.name
    → OfIngresses seen (insert ids k v)
unfolding insert
OfIngresses-insert seen [] k v h l = (l, tt)
OfIngresses-insert seen ((j, w) ∷ ids) k v (m, h) l = elim (Bool-cases (str_eq j k)) [
  | inl same ↦ rw same (l, h)
  | inr other ↦ rw other (m, OfIngresses-insert seen ids k v h l)
]

module _ (md5sum_data : IngressInfo → Option String) where
  entry-Listed :
      (seen : List Ingress) (o : Option ResourceIdentifier) (text : String) (a : IngressInfo)
      → ((v : ResourceIdentifier) → o ≡ some v → Listed seen a.common.uid v.name)
      → Listed seen a.common.uid a.common.name
      → Listed seen a.common.uid (entry ingress_resource md5sum_data o text a).name
  entry-Listed seen none text a known l = l
  entry-Listed seen (some v) text a known l =
      elim (Bool-cases (str_eq v.md5 text && not (str_eq v.cid ""))) [
        | inl same ↦ rw same (known v refl)
        | inr changed ↦ rw changed (known v refl)
      ]

  handle-OfIngresses :
      (seen : List Ingress) (ids : Dict ResourceIdentifier) (a : IngressInfo)
      → OfIngresses seen ids
      → Listed seen a.common.uid a.common.name
      → OfIngresses seen (handle_increment ingress_resource md5sum_data ids a).0
  handle-OfIngresses seen ids a h l = elim (Option-cases (md5sum_data a)) [
    | inl failed ↦
        let e : handle_increment ingress_resource md5sum_data ids a ≡ (ids, a) =
          unfold handle_increment in ground arith in
        subst (λ (c : Dict ResourceIdentifier × IngressInfo). OfIngresses seen c.0) (sym e) h
    | inr (text, summed) ↦
        subst (λ (c : Dict ResourceIdentifier × IngressInfo). OfIngresses seen c.0)
          (sym (handle_increment_lem ingress_resource md5sum_data ids a text summed))
          (OfIngresses-insert seen ids a.common.uid
            (entry ingress_resource md5sum_data (lookup ids a.common.uid) text a) h
            (entry-Listed seen (lookup ids a.common.uid) text a
              (λ v e. OfIngresses-lookup seen ids a.common.uid v h e) l))
  ]

  pub collect-OfIngresses :
      (seen ingresses : List Ingress) (ids : Dict ResourceIdentifier)
      → OfIngresses seen ids
      → ((ing : Ingress) → Among ing ingresses → Listed seen ing.meta.uid ing.meta.name)
      → OfIngresses seen (get_ingress_info md5sum_data ids ingresses).0
  unfolding get_ingress_info collect ingress_info common_info
  collect-OfIngresses seen [] ids h l = h
  collect-OfIngresses seen (ing ∷ ingresses) ids h l =
      collect-OfIngresses seen ingresses
        (handle_increment ingress_resource md5sum_data ids (ingress_info ids ing)).0
        (handle-OfIngresses seen ids (ingress_info ids ing) h (l ing (inl refl)))
        (λ i m. l i (inr m))
