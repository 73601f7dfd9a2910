-- ===== src/Collector/Ingress/Uids/Finds.antt =====
-- Which uids `generateIngressRules` finds: the collector looks its services up in its own cache, which
-- holds ingresses.
use chaosblade_box_agent.Prelude.{
  ◌≡◌, refl, sym, subst, ◌⊎◌, inl, inr, arith, String, false, Option, List, [], ◌∷◌, ◌++◌, str_eq,
  Bool-cases, Option-cases, eq_iff, Outcome, panic,
}
use chaosblade_box_agent.Prelude.Dict.{Dict, lookup, insert}
use chaosblade_box_agent.Transport.Json.{Fields, end, field, as_string}
use chaosblade_box_agent.Collector.{ResourceIdentifier}
use chaosblade_box_agent.Collector.Metric.{add_cids}
use chaosblade_box_agent.Collector.Increment.{sweep}
use chaosblade_box_agent.Collector.Ingress.{
  Ingress, IngressInfo, ingress_resource, get_service_uid_by_name, get_ingress_info,
}
use chaosblade_box_agent.Collector.Ingress.Uids.{
  Listed, OfIngresses, OfIngresses-append, OfIngresses-lookup, OfIngresses-insert, Listed-among,
  collect-OfIngresses,
}

-- the caches of the collector's life, with the ingresses that were listed, the newest first: a cache
-- is emptied, a round's ingresses are collected, the cids of an answer are taken, or a sweep is made
pub data Cached (md5sum_data : IngressInfo → Option String)
    : List Ingress → Dict ResourceIdentifier → Type 0 where
  emptied : (seen : List Ingress) → Cached md5sum_data seen []
  listed :
      {seen : List Ingress} {ids : Dict ResourceIdentifier} (ingresses seen' : List Ingress)
      (ids' : Dict ResourceIdentifier)
      → Cached md5sum_data seen ids
      → seen' ≡ ingresses ++ seen
      → ids' ≡ (get_ingress_info md5sum_data ids ingresses).0
      → Cached md5sum_data seen' ids'
  answered :
      {seen : List Ingress} {ids : Dict ResourceIdentifier} (answer : Fields)
      (ids' : Dict ResourceIdentifier)
      → Cached md5sum_data seen ids
      → ids' ≡ (add_cids ids answer).0
      → Cached md5sum_data seen ids'
  swept :
      {seen : List Ingress} {ids : Dict ResourceIdentifier} (ids' : Dict ResourceIdentifier)
      → Cached md5sum_data seen ids
      → ids' ≡ (sweep ingress_resource ids).0
      → Cached md5sum_data seen ids'

module _ (seen : List Ingress) where
  OfIngresses-sweep :
      (ids : Dict ResourceIdentifier)
      → OfIngresses seen ids
      → OfIngresses seen (sweep ingress_resource ids).0
  unfolding sweep
  OfIngresses-sweep [] h = tt
  OfIngresses-sweep ((k, v) ∷ ids) (l, h) =
      let rest = (sweep ingress_resource ids).0 in
      elim (Bool-cases v.curr) [
        | inl seen_now ↦
            let e : (sweep ingress_resource ((k, v) ∷ ids)).0
                ≡ (k, record v { curr = false }) ∷ rest =
              ground arith in
            subst (λ (m : Dict ResourceIdentifier). OfIngresses seen m) (sym e)
              (l, OfIngresses-sweep ids h)
        | inr unseen ↦
            let e : (sweep ingress_resource ((k, v) ∷ ids)).0 ≡ rest = ground arith in
            subst (λ (m : Dict ResourceIdentifier). OfIngresses seen m) (sym e)
              (OfIngresses-sweep ids h)
      ]

  OfIngresses-add_cids :
      (ids : Dict ResourceIdentifier) (answer : Fields)
      → OfIngresses seen ids
      → OfIngresses seen (add_cids ids answer).0
  unfolding add_cids
  OfIngresses-add_cids ids end h = h
  OfIngresses-add_cids ids (field key value v) h = elim (Option-cases (lookup ids key)) [
    | inl unknown ↦
        let e : add_cids ids (field key value v) ≡ add_cids ids v = ground arith in
        subst (λ (p : Dict ResourceIdentifier × Outcome (Unit {0})). OfIngresses seen p.0) (sym e)
          (OfIngresses-add_cids ids v h)
    | inr (vi, known) ↦ elim (Option-cases (as_string value)) [
      | inl no_text ↦
          let e : add_cids ids (field key value v) ≡ (ids, panic) = ground arith in
          subst (λ (p : Dict ResourceIdentifier × Outcome (Unit {0})). OfIngresses seen p.0) (sym e)
            h
      | inr (cid, text) ↦
          let vi' = record vi { cid = cid } in
          let e : add_cids ids (field key value v) ≡ add_cids (insert ids key vi') v =
            ground arith in
          subst (λ (p : Dict ResourceIdentifier × Outcome (Unit {0})). OfIngresses seen p.0) (sym e)
            (OfIngresses-add_cids (insert ids key vi') v
              (OfIngresses-insert seen ids key vi' h (OfIngresses-lookup seen ids key vi h known)))
    ]
  ]

  found :
      (ids : Dict ResourceIdentifier) (name : String)
      → OfIngresses seen ids
      → (get_service_uid_by_name ids name ≡ "")
        ⊎ Listed seen (get_service_uid_by_name ids name) name
  unfolding get_service_uid_by_name
  found [] name h = inl refl
  found ((k, v) ∷ ids) name (l, h) = elim (Bool-cases (str_eq v.name name)) [
    | inl same ↦
        let e : v.name ≡ name = (eq_iff v.name name).0 same in
        rw same (inr (subst (λ (n : String). Listed seen k n) e l))
    | inr other ↦ rw other (found ids name h)
  ]

Cached-OfIngresses :
    (md5sum_data : IngressInfo → Option String) {seen : List Ingress}
    {ids : Dict ResourceIdentifier}
    → Cached md5sum_data seen ids
    → OfIngresses seen ids
Cached-OfIngresses md5sum_data (emptied seen) = tt
Cached-OfIngresses md5sum_data (listed {seen} {ids} ingresses seen' ids' c es ei) =
    rw (es, ei)
      (collect-OfIngresses md5sum_data (ingresses ++ seen) ingresses ids
        (OfIngresses-append ingresses seen ids (Cached-OfIngresses md5sum_data c))
        (λ ing m. Listed-among ing ingresses seen m))
Cached-OfIngresses md5sum_data {seen} (answered {ids = ids} answer ids' c e) =
    rw e (OfIngresses-add_cids seen ids answer (Cached-OfIngresses md5sum_data c))
Cached-OfIngresses md5sum_data {seen} (swept {ids = ids} ids' c e) =
    rw e (OfIngresses-sweep seen ids (Cached-OfIngresses md5sum_data c))

-- In any cache of the collector's life, the uid that is found for the name of a service is empty or
-- the uid of an ingress with that name that was listed: it is never looked up among services.
pub get_service_uid_by_name-Listed :
    (md5sum_data : IngressInfo → Option String) {seen : List Ingress}
    {ids : Dict ResourceIdentifier} (name : String)
    → Cached md5sum_data seen ids
    → (get_service_uid_by_name ids name ≡ "") ⊎ Listed seen (get_service_uid_by_name ids name) name
get_service_uid_by_name-Listed md5sum_data {seen} {ids} name c =
    found seen ids name (Cached-OfIngresses md5sum_data c)
