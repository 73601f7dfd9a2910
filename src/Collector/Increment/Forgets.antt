-- ===== src/Collector/Increment/Forgets.antt =====
-- What a round whose report fails leaves behind.
use chaosblade_box_agent.Prelude.{
  ◌≡◌, ap, ◌⊎◌, String, true, Option, List, [], ◌∷◌, returned, Outcome, panic,
}
use chaosblade_box_agent.Prelude.Dict.{Dict}
use chaosblade_box_agent.Options.{Options}
use chaosblade_box_agent.Transport.Client.{Wire, Sent, Invoked, invoke}
use chaosblade_box_agent.Transport.Client.Sends.{Succeeds}
use chaosblade_box_agent.Collector.{ResourceIdentifier}
use chaosblade_box_agent.Collector.Metric.{K8sBaseCollector, reset_identifier_cache, metric_request}
use chaosblade_box_agent.Collector.Metric.Resets.{reported, report_failure}
use chaosblade_box_agent.Collector.Increment.{
  ResourceInfo, handle_increment, collect, sweep, report_not_exist, report_listed,
}

module _ {A R : Type 0} (info : ResourceInfo A) (md5sum_data : A → Option String)
    (marshal : List A → String ⊎ String) (opts : Options)
    (info_of : Dict ResourceIdentifier → R → A) (finish : A → A) (wire wire' : Wire) (sent : Sent)
    (collector : K8sBaseCollector) (r : R) (rs : List R) where
  abbrev pub infos : List A
  infos = (collect info md5sum_data info_of finish collector.identifiers (r ∷ rs)).1

  -- the call that a round makes first
  abbrev pub first_report : Invoked
  first_report = reported opts marshal wire sent collector infos

  -- the messages sent behind it
  abbrev pub first_sent : Sent
  first_sent =
      (invoke wire sent (record collector.uri { compress_version = "2" })
        (metric_request opts marshal collector infos) true).0

  -- A round with a resource whose report the server does not answer with a success makes no other
  -- call, so that what has gone since the round before is not reported, and leaves both caches empty
  -- and the rest of the collector as it was.
  pub report_listed-forgets :
      (Succeeds first_report → ⊥)
      → report_listed info md5sum_data marshal opts info_of finish wire wire' sent collector
          (r ∷ rs)
        ≡ (
          (first_sent, record collector { identifiers = []; second_identifiers = [] }),
          returned tt,
        )
  unfolding report_listed report_not_exist sweep reset_identifier_cache collect
  report_listed-forgets fails =
      ap
        (λ (x : (Sent × K8sBaseCollector) × Outcome (Unit {0})).
          let y : (Sent × K8sBaseCollector) × Outcome (Unit {0}) = elim x.1 [
            | panic ↦ (x.0, panic)
            | returned done ↦ report_not_exist info md5sum_data marshal opts wire' x.0.0 x.0.1
          ] in
          y)
        (report_failure opts marshal wire sent
          (record collector {
            identifiers =
                (collect info md5sum_data info_of finish collector.identifiers (r ∷ rs)).0;
          })
          true
          (finish
            (handle_increment info md5sum_data collector.identifiers
              (info_of collector.identifiers r)).1)
          (collect info md5sum_data info_of finish
            (handle_increment info md5sum_data collector.identifiers
              (info_of collector.identifiers r)).0
            rs).1
          fails)
