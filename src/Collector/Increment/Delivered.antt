-- ===== src/Collector/Increment/Delivered.antt =====
-- A whole report whose calls are answered, and what it leaves in the cache.
use chaosblade_box_agent.Prelude.{
  ◌≡◌, refl, ap, ◌∙◌, arith, ◌⊎◌, String, true, false, Option, some, List, [], ◌∷◌, str_eq, Outcome,
  returned, panic,
}
use chaosblade_box_agent.Prelude.Dict.{Dict}
use chaosblade_box_agent.Options.{Options}
use chaosblade_box_agent.Transport.Json.{Fields, end, as_map}
use chaosblade_box_agent.Transport.Response.{Response}
use chaosblade_box_agent.Transport.Client.{Wire, Sent, answered}
use chaosblade_box_agent.Transport.Client.Sends.{Succeeds}
use chaosblade_box_agent.Collector.{ResourceIdentifier}
use chaosblade_box_agent.Collector.Metric.{
  K8sBaseCollector, add_cids, accept_answer, report_k8s_metric,
}
use chaosblade_box_agent.Collector.Metric.Resets.{reported}
use chaosblade_box_agent.Collector.Increment.{
  ResourceInfo, collect, sweep, report_not_exist, report_listed,
}

-- a report and what it leaves
abbrev pub Report : Type 0
Report = (Sent × K8sBaseCollector) × Outcome (Unit {0})

from_parts :
    (x : Report) (c : K8sBaseCollector) (o : Outcome (Unit {0}))
    → x.0.1 ≡ c
    → x.1 ≡ o
    → x ≡ ((x.0.0, c), o)
from_parts x c o e f =
    ap (λ (d : K8sBaseCollector). ((x.0.0, d), x.1)) e
    ∙ ap (λ (p : Outcome (Unit {0})). ((x.0.0, c), p)) f

module _ {A : Type 0} (opts : Options) (marshal : List A → String ⊎ String) where
  -- what exists is nothing, and then nothing is answered, or it is answered with a success and a map
  abbrev pub Answered : Wire → Sent → K8sBaseCollector → List A → Fields → Type 0
  Answered wire sent collector [] answer = answer ≡ end
  Answered wire sent collector (a ∷ rest) answer =
      (response : Response) × (reported opts marshal wire sent collector (a ∷ rest)
        ≡ answered response)
      × (response.success ≡ true)
      × (as_map response.result ≡ some answer)

  -- what has gone is nothing, or it is answered with a success
  abbrev pub Delivered : Wire → Sent → K8sBaseCollector → List A → Type 0
  Delivered wire sent collector [] = Unit
  Delivered wire sent collector (a ∷ rest) =
      Succeeds (reported opts marshal wire sent collector (a ∷ rest))

  report-Delivered :
      (wire : Wire) (sent : Sent) (collector : K8sBaseCollector) (gone : List A)
      → Delivered wire sent collector gone
      → let ((sent', collector'), outcome) =
          report_k8s_metric opts marshal wire sent collector false gone in
        (collector' ≡ collector) × (outcome ≡ returned tt)
  unfolding report_k8s_metric accept_answer
  report-Delivered wire sent collector [] delivered = (refl, refl)
  report-Delivered wire sent collector (a ∷ rest) (response, e, succeeds) =
      (ground arith, ground arith)

  report-Answered :
      (wire : Wire) (sent : Sent) (collector : K8sBaseCollector) (infos : List A) (answer : Fields)
      → Answered wire sent collector infos answer
      → str_eq collector.report_handler "k8sVirtualNode" ≡ false
      → let ((sent', collector'), outcome) =
          report_k8s_metric opts marshal wire sent collector true infos in
        (collector' ≡ record collector { identifiers = (add_cids collector.identifiers answer).0 })
        × (outcome ≡ (add_cids collector.identifiers answer).1)
  unfolding report_k8s_metric accept_answer add_cids
  report-Answered wire sent collector [] answer is_end ordinary = rw is_end (refl, refl)
  report-Answered wire sent collector (a ∷ rest) answer (response, e, succeeds, is_map) ordinary =
      (ground arith, ground arith)

module _ {A R : Type 0} (info : ResourceInfo A) (md5sum_data : A → Option String)
    (marshal : List A → String ⊎ String) (opts : Options)
    (info_of : Dict ResourceIdentifier → R → A) (finish : A → A) (wire wire' : Wire) (sent : Sent)
    (collector : K8sBaseCollector) (rs : List R) where
  -- the cache and what is reported, behind the listed resources
  abbrev pub first_round : Dict ResourceIdentifier × List A
  first_round = collect info md5sum_data info_of finish collector.identifiers rs

  abbrev seen_collector : K8sBaseCollector
  seen_collector = record collector { identifiers = first_round.0 }

  -- the cache and what is reported, behind the answer and the sweep
  abbrev pub second_round : Fields → Dict ResourceIdentifier × List A
  second_round answer = sweep info (add_cids first_round.0 answer).0

  -- the collector behind the sweep
  abbrev pub swept_collector : Fields → K8sBaseCollector
  swept_collector answer = record collector { identifiers = (second_round answer).0 }

  abbrev first_call : Report
  first_call = report_k8s_metric opts marshal wire sent seen_collector true first_round.1

  -- the report of what exists is answered with a map, and that of what has gone with a success, as far
  -- as there is something to report
  abbrev pub FirstAnswered : Fields → Type 0
  FirstAnswered answer = Answered opts marshal wire sent seen_collector first_round.1 answer

  abbrev pub SecondDelivered : Fields → Type 0
  SecondDelivered answer =
      Delivered opts marshal wire' first_call.0.0 (swept_collector answer) (second_round answer).1

  abbrev report_all : Report
  report_all =
      report_listed info md5sum_data marshal opts info_of finish wire wire' sent collector rs

  both_calls :
      (answer : Fields)
      → first_call ≡ (
        (first_call.0.0, record collector { identifiers = (add_cids first_round.0 answer).0 }),
        returned tt,
      )
      → SecondDelivered answer
      → (report_all.0.1 ≡ swept_collector answer) × (report_all.1 ≡ returned tt)
  unfolding report_listed report_not_exist
  both_calls answer first delivered =
      let second =
        report-Delivered opts marshal wire' first_call.0.0 (swept_collector answer)
          (second_round answer).1 delivered in
      let e : report_all
          ≡ report_k8s_metric opts marshal wire' first_call.0.0 (swept_collector answer) false
              (second_round answer).1 =
        ap
          (λ (x : Report).
            let y : Report = elim x.1 [
              | panic ↦ (x.0, panic)
              | returned done ↦ report_not_exist info md5sum_data marshal opts wire' x.0.0 x.0.1
            ] in
            y)
          first in
      (ap (λ (x : Report). x.0.1) e ∙ second.0, ap (λ (x : Report). x.1) e ∙ second.1)

  -- both calls are answered: what the report leaves
  pub report_listed-Delivered :
      (answer : Fields)
      → (add_cids first_round.0 answer).1 ≡ returned tt
      → FirstAnswered answer
      → str_eq collector.report_handler "k8sVirtualNode" ≡ false
      → SecondDelivered answer
      → (report_all.0.1 ≡ swept_collector answer) × (report_all.1 ≡ returned tt)
  report_listed-Delivered answer done is_answered ordinary delivered =
      let accepted =
        report-Answered opts marshal wire sent seen_collector first_round.1 answer is_answered
          ordinary in
      both_calls answer
        (from_parts first_call
          (record collector { identifiers = (add_cids first_round.0 answer).0 }) (returned tt)
          accepted.0 (accepted.1 ∙ done))
        delivered
