-- ===== src/Collector/Increment/View/Recovers.antt =====
-- What an answered report makes good, whichever reports before it were lost.
use chaosblade_box_agent.Prelude.{
  ◌≡◌, ◌⊎◌, String, true, false, Option, some, List, [], All, str_eq, returned,
}
use chaosblade_box_agent.Prelude.Dict.{Dict}
use chaosblade_box_agent.Options.{Options}
use chaosblade_box_agent.Transport.Json.{Fields}
use chaosblade_box_agent.Transport.Client.{Wire, Sent}
use chaosblade_box_agent.Collector.Metric.{K8sBaseCollector, add_cids}
use chaosblade_box_agent.Collector.Increment.{ResourceInfo}
use chaosblade_box_agent.Collector.Increment.Delivered
use chaosblade_box_agent.Collector.Increment.View.Exact.{Told}
use chaosblade_box_agent.Collector.Increment.View.Reports.{
  first_round, FirstAnswered, SecondDelivered, view_behind, report_all,
}
use chaosblade_box_agent.Collector.Increment.View.Fits.{Fits}

module _ {A R : Type 0} (info : ResourceInfo A) (md5sum_data : A → Option String) (full : R → A)
    (fresh : (r : R) → ((info.common (full r)).exist ≡ true) × ((info.common (full r)).cid ≡ ""))
    (summed : (a : A) → (text : String) × (md5sum_data a ≡ some text))
    (marshal : List A → String ⊎ String) (opts : Options) where
  -- What a collector and the server's view can come to. A cache is empty at the start, behind every
  -- report that the server did not answer with a success, and behind an answer that is no map; the view
  -- is then anything. A report of any list of resources whose calls are answered, the first one with a
  -- map of texts, goes on from what was before it, whatever the map leaves out.
  pub data Life : K8sBaseCollector → Dict A → Type 0 where
    emptied :
        (collector : K8sBaseCollector) (view : Dict A)
        → collector.identifiers ≡ []
        → Life collector view
    reports :
        (wire wire' : Wire) (sent : Sent) (collector collector' : K8sBaseCollector) (rs : List R)
        (view view' : Dict A) (answer : Fields)
        → Life collector view
        → All (Told info md5sum_data full fresh summed) rs
        → (add_cids
            (first_round info md5sum_data full marshal opts wire wire' sent collector rs).0
            answer).1
          ≡ returned tt
        → FirstAnswered info md5sum_data full marshal opts wire wire' sent collector rs answer
        → str_eq collector.report_handler "k8sVirtualNode" ≡ false
        → SecondDelivered info md5sum_data full marshal opts wire wire' sent collector rs answer
        → collector'
          ≡ (report_all info md5sum_data full marshal opts wire wire' sent collector rs).0.1
        → view'
          ≡ view_behind info md5sum_data full marshal opts wire wire' sent collector rs answer view
        → Life collector' view'
