-- ===== src/Collector/Increment/View/Reports.antt =====
-- A whole report, with its two calls of the server, and the server's view of the resources.
use chaosblade_box_agent.Prelude.{◌⊎◌, String, Option, List}
use chaosblade_box_agent.Prelude.Dict.{Dict}
use chaosblade_box_agent.Options.{Options}
use chaosblade_box_agent.Transport.Json.{Fields}
use chaosblade_box_agent.Transport.Client.{Wire, Sent}
use chaosblade_box_agent.Collector.{ResourceIdentifier}
use chaosblade_box_agent.Collector.Metric.{K8sBaseCollector}
use chaosblade_box_agent.Collector.Increment.{ResourceInfo, report_listed}
use chaosblade_box_agent.Collector.Increment.Delivered
use chaosblade_box_agent.Collector.Increment.Delivered.{Report}
use chaosblade_box_agent.Collector.Increment.View.{receive_all}

module _ {A R : Type 0} (info : ResourceInfo A) (md5sum_data : A → Option String) (full : R → A)
    (marshal : List A → String ⊎ String) (opts : Options) (wire wire' : Wire) (sent : Sent)
    (collector : K8sBaseCollector) (rs : List R) where
  -- the cache and what is reported, behind the listed resources
  abbrev pub first_round : Dict ResourceIdentifier × List A
  first_round =
      Delivered.first_round info md5sum_data marshal opts (λ ids r. full r) (λ a. a) wire wire' sent
        collector rs

  abbrev pub swept_collector : Fields → K8sBaseCollector
  swept_collector answer =
      Delivered.swept_collector info md5sum_data marshal opts (λ ids r. full r) (λ a. a) wire wire'
        sent collector rs answer

  abbrev pub FirstAnswered : Fields → Type 0
  FirstAnswered answer =
      Delivered.FirstAnswered info md5sum_data marshal opts (λ ids r. full r) (λ a. a) wire wire'
        sent collector rs answer

  abbrev pub SecondDelivered : Fields → Type 0
  SecondDelivered answer =
      Delivered.SecondDelivered info md5sum_data marshal opts (λ ids r. full r) (λ a. a) wire wire'
        sent collector rs answer

  -- what the server makes of both reports
  abbrev pub view_behind : Fields → Dict A → Dict A
  view_behind answer view =
      receive_all info (receive_all info view first_round.1)
        (Delivered.second_round info md5sum_data marshal opts (λ ids r. full r) (λ a. a) wire wire'
          sent collector rs answer).1

  abbrev pub report_all : Report
  report_all =
      report_listed info md5sum_data marshal opts (λ ids r. full r) (λ a. a) wire wire' sent
        collector rs
