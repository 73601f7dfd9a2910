-- ===== src/Collector/Metric/Resets.antt =====
-- The caches of a collector behind a report.
use chaosblade_box_agent.Prelude.{
  ◌≡◌, ap, Outcome, ◌⊎◌, inl, inr, arith, String, Bool, true, false, Option, none, some, List, ◌∷◌,
  str_eq, if◌then◌else◌, Bool-cases, Option-cases, eq_iff, returned,
}
use chaosblade_box_agent.Prelude.Dict.{Dict, lookup, insert, lookup-insert}
use chaosblade_box_agent.Options.{Options}
use chaosblade_box_agent.Transport.Json.{Fields, end, field, as_string, as_map}
use chaosblade_box_agent.Transport.Response.{Response}
use chaosblade_box_agent.Transport.Client.{Wire, Sent, Invoked, answered, invoke}
use chaosblade_box_agent.Transport.Client.Sends.{Succeeds, Invoked-cases}
use chaosblade_box_agent.Collector.{ResourceIdentifier}
use chaosblade_box_agent.Collector.Metric.{
  K8sBaseCollector, add_cids, accept_answer, reset_identifier_cache, metric_request,
  report_k8s_metric,
}

-- the call that a report makes
abbrev pub reported {ℓ} :
    {A : Type ℓ}
    → Options
    → (List A → String ⊎ String)
    → Wire
    → Sent
    → K8sBaseCollector
    → List A
    → Invoked
reported opts marshal wire sent collector resource =
    (invoke wire sent (record collector.uri { compress_version = "2" })
      (metric_request opts marshal collector resource) true).1

-- the text that an answer gives for a key last, or else the first text
abbrev pub cid_in : Fields → String → String → String
cid_in end k cid = cid
cid_in (field key value v) k cid =
    cid_in v k (if str_eq key k then (elim (as_string value) [ none ↦ cid | some c ↦ c ]) else cid)

-- an identifier with the cid of an answer
abbrev pub with_cid : Fields → String → Option ResourceIdentifier → Option ResourceIdentifier
with_cid v k none = none
with_cid v k (some vi) = some (record vi { cid = cid_in v k vi.cid })

pub lookup-add_cids :
    (ids : Dict ResourceIdentifier) (v : Fields) (k : String)
    → (add_cids ids v).1 ≡ returned tt
    → lookup (add_cids ids v).0 k ≡ with_cid v k (lookup ids k)
unfolding add_cids
lookup-add_cids ids end k e = ground arith
lookup-add_cids ids (field key value v) k e = elim (Option-cases (lookup ids key)) [
  | inl unknown ↦ ground (arith, eq_iff key k, lookup-add_cids ids v k)
  | inr (vi, known) ↦ elim (Option-cases (as_string value)) [
    | inl no_text ↦ ground arith
    | inr (cid, text) ↦
        let ids' = insert ids key (record vi { cid = cid }) in
        ground (
          arith,
          eq_iff key k,
          lookup-add_cids ids' v k,
          lookup-insert ids key k (record vi { cid = cid }),
        )
  ]
]

module _ {ℓ} {A : Type ℓ} (opts : Options) (marshal : List A → String ⊎ String) (wire : Wire)
    (sent : Sent) (collector : K8sBaseCollector) (is_exists : Bool) (r : A) (rs : List A) where
  -- the whole of a report that fails
  pub report_failure :
      (Succeeds (reported opts marshal wire sent collector (r ∷ rs)) → ⊥)
      → report_k8s_metric opts marshal wire sent collector is_exists (r ∷ rs) ≡ (
        (
          (invoke wire sent
              (record collector.uri { compress_version = "2" })
              (metric_request opts marshal collector (r ∷ rs))
              true).0,
          reset_identifier_cache collector,
        ),
        returned tt,
      )
  unfolding report_k8s_metric
  report_failure fails = elim (Invoked-cases (reported opts marshal wire sent collector (r ∷ rs))) [
    | inr (response, err, e) ↦ ground arith
    | inl (response, e) ↦ elim (Bool-cases response.success) [
      | inl succeeds ↦ absurd (fails (response, e, succeeds))
      | inr refuses ↦ ground arith
    ]
  ]

  -- A report that the server does not answer with a success empties both caches, so that the next
  -- round reports everything in full.
  report_failure_resets :
      (Succeeds (reported opts marshal wire sent collector (r ∷ rs)) → ⊥)
      → ((report_k8s_metric opts marshal wire sent collector is_exists (r ∷ rs)).0.1
          ≡ reset_identifier_cache collector)
        × ((report_k8s_metric opts marshal wire sent collector is_exists (r ∷ rs)).1 ≡ returned tt)
  report_failure_resets fails = (
    ap (λ (x : (Sent × K8sBaseCollector) × Outcome (Unit {0})). x.0.1) (report_failure fails),
    ap (λ (x : (Sent × K8sBaseCollector) × Outcome (Unit {0})). x.1) (report_failure fails),
  )

  -- A report of what exists, of another resource than a virtual node, that is answered with a map and
  -- does not panic: the cache knows the uids that it knew, each with the cid that the answer gives it,
  -- or else the one it had.
  pub report_success_cids :
      (response : Response) (v : Fields) (k : String)
      → reported opts marshal wire sent collector (r ∷ rs) ≡ answered response
      → response.success ≡ true
      → as_map response.result ≡ some v
      → is_exists ≡ true
      → str_eq collector.report_handler "k8sVirtualNode" ≡ false
      → (report_k8s_metric opts marshal wire sent collector is_exists (r ∷ rs)).1 ≡ returned tt
      → lookup
          (report_k8s_metric opts marshal wire sent collector is_exists (r ∷ rs)).0.1.identifiers
          k
        ≡ with_cid v k (lookup collector.identifiers k)
  unfolding report_k8s_metric accept_answer
  report_success_cids response v k e succeeds is_map exists ordinary done =
      ground (arith, lookup-add_cids collector.identifiers v k)
