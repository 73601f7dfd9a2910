-- ===== src/Handler/Chaosblade/Tasks.antt =====
-- web/handler/chaosblade.go: what the goroutines of a command do, `checkAndReportJavaAgentStatus`,
-- `checkAndReportJavaAgentUninstallStatus` and `checkAndReportAsyncStatus`.
use chaosblade_box_agent.Prelude.{Outcome, returned, panic, ℕ, String, none, some}
use chaosblade_box_agent.Prelude.Dict.{Dict, lookup}
use chaosblade_box_agent.Options.{Options}
use chaosblade_box_agent.Transport.Uri.{Uri, uri_at}
use chaosblade_box_agent.Transport.Client.{Wire, Sent}
use chaosblade_box_agent.Conn.Reports.{report_status}
use chaosblade_box_agent.Handler.Chaosblade.{
  Blade, ChaosbladeHandler, Task, java_install, java_uninstall, async_create,
}
use chaosblade_box_agent.Handler.Chaosblade.Exec.{delete_callback}
use chaosblade_box_agent.Handler.Chaosblade.Wait.{timing_check_status}

-- the server's side of a report
pub record Reporter : Type 0 where
  pub opts : Options
  pub uris : Dict Uri
  pub wire : Wire

-- `reportStatusFunc`
unfoldable pub report_status_func : Reporter → Sent → String → String → String → Uri → Sent
report_status_func reporter sent uid status error_msg uri =
    report_status reporter.opts reporter.wire sent uid status error_msg "" uri

-- a report to an address that may be missing
unfoldable pub report_to : Reporter → Sent → String → String → String → String → Sent
unfolding report_status_func
report_to reporter sent api uid status error_msg = elim (lookup reporter.uris api) [
  | none ↦ sent
  | some uri ↦ report_status_func reporter sent uid status error_msg uri
]

module _ (env : Blade) (reporter : Reporter) where
  -- `checkAndReportJavaAgentStatus(uid, reportStatusFunc, deleteCallback)`
  unfoldable pub check_and_report_java_agent_status :
      ℕ → ChaosbladeHandler → Sent → String → (ChaosbladeHandler × Sent) × Outcome (Unit {0})
  unfolding report_to
  check_and_report_java_agent_status ticks ch sent uid =
      let (ch', checked) = timing_check_status env ticks ch uid in
      elim checked [
        | none ↦ ((ch', sent), panic)
        | some found ↦ (
          (
            delete_callback ch' uid found.0,
            report_to reporter sent "javaInstall" uid found.0 found.1,
          ),
          returned tt,
        )
      ]

  -- `checkAndReportJavaAgentUninstallStatus`, with a callback that does nothing
  unfoldable pub check_and_report_java_agent_uninstall_status :
      ℕ → ChaosbladeHandler → Sent → String → (ChaosbladeHandler × Sent) × Outcome (Unit {0})
  unfolding report_to
  check_and_report_java_agent_uninstall_status ticks ch sent uid =
      let (ch', checked) = timing_check_status env ticks ch uid in
      elim checked [
        | none ↦ ((ch', sent), panic)
        | some found ↦
            ((ch', report_to reporter sent "javaUninstall" uid found.0 found.1), returned tt)
      ]

  -- `checkAndReportAsyncStatus`
  unfoldable pub check_and_report_async_status :
      ℕ → ChaosbladeHandler → Sent → String → (ChaosbladeHandler × Sent) × Outcome (Unit {0})
  unfolding report_status_func
  check_and_report_async_status ticks ch sent uid =
      let (ch', checked) = timing_check_status env ticks ch uid in
      elim checked [
        | none ↦ ((ch', sent), panic)
        | some found ↦ (
          (
            ch',
            report_status_func reporter sent uid found.0 found.1
                (uri_at reporter.uris "chaosbladeAsync"),
          ),
          returned tt,
        )
      ]

  -- the body of each goroutine
  unfoldable pub run_task :
      ℕ → ChaosbladeHandler → Sent → Task → (ChaosbladeHandler × Sent) × Outcome (Unit {0})
  unfolding check_and_report_java_agent_status check_and_report_java_agent_uninstall_status
      check_and_report_async_status
  run_task ticks ch sent (java_install uid) = check_and_report_java_agent_status ticks ch sent uid
  run_task ticks ch sent (java_uninstall uid) =
      check_and_report_java_agent_uninstall_status ticks ch sent uid
  run_task ticks ch sent (async_create uid) = check_and_report_async_status ticks ch sent uid
