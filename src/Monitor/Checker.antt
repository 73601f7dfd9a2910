-- ===== src/Monitor/Checker.antt =====
-- monitor/checker.go, and the action of monitor/monitor.go that it fills.
pub mod Runs
pub mod Verdict
pub mod Decides
use chaosblade_box_agent.Prelude.{
  ℕ, ◌+◌, String, Bool, true, false, not, ◌&&◌, List, [], ◌∷◌, ◌++◌, ◌==◌, if◌then◌else◌,
}
use chaosblade_box_agent.Tools.LimitedList.{LimitedList, walk, foreach_reverse}
use chaosblade_box_agent.Conn.Heartbeat.{HbSnapshot}

-- `monitorAction`
pub record MonitorAction : Type 0 where
  pub need_stop : Bool
  pub need_start : Bool
  pub need_exit : Bool
  pub reason : String

-- `recover`
unfoldable pub recover : MonitorAction → MonitorAction
recover this = record this { need_start = false; need_stop = false; need_exit = false; reason = "" }

abbrev pub hb_stop_threshold : ℕ
hb_stop_threshold = 12

abbrev pub hb_start_threshold : ℕ
hb_start_threshold = 3

-- What the closure of `checkHeartBeat` holds, with the package's `hbAlreadyStoped`.
pub record Walker : Type 0 where
  pub hb_fail_continuous_count : ℕ
  pub hb_succ_continuous_count : ℕ
  pub walker_list : List HbSnapshot
  pub hb_already_stopped : Bool
  pub action : MonitorAction

-- the first two statements of the closure: the list and the counters
unfoldable pub count_snapshot : Walker → HbSnapshot → Walker
count_snapshot w snapshot =
    let w = record w { walker_list = w.walker_list ++ snapshot ∷ [] } in
    if not snapshot.success
    then record w {
      hb_fail_continuous_count = w.hb_fail_continuous_count + 1;
      hb_succ_continuous_count = 0;
    }
    else record w {
      hb_succ_continuous_count = w.hb_succ_continuous_count + 1;
      hb_fail_continuous_count = 0;
    }

-- the four tests behind them; `true` is `errors.New("nolog")`
unfoldable pub judge : Walker → Walker × Bool
unfolding recover
judge w =
    if (w.hb_fail_continuous_count == hb_stop_threshold) && not w.hb_already_stopped
    then (
      record w {
        hb_already_stopped = true;
        action = record (recover w.action) {
          need_stop = true;
          reason = "stop because of heartbeat";
        };
      },
      true,
    )
    else if (w.hb_fail_continuous_count == hb_stop_threshold) && w.hb_already_stopped
    then (w, true)
    else if (w.hb_succ_continuous_count == hb_start_threshold) && w.hb_already_stopped
    then (record w { action = record (recover w.action) { need_start = true } }, true)
    else if (w.hb_succ_continuous_count == hb_start_threshold) && not w.hb_already_stopped
    then (w, true)
    else (w, false)

unfoldable pub handle : Walker → HbSnapshot → Walker × Bool
unfolding count_snapshot judge
handle w snapshot = judge (count_snapshot w snapshot)

-- `checkHeartBeat`: the walk goes from the newest snapshot to the oldest
unfoldable pub check_heartbeat :
    LimitedList HbSnapshot → Bool → MonitorAction → Bool × MonitorAction
unfolding foreach_reverse handle
check_heartbeat snapshots hb_already_stopped action =
    let w = foreach_reverse snapshots handle true (record {
      hb_fail_continuous_count = 0;
      hb_succ_continuous_count = 0;
      walker_list = [];
      hb_already_stopped = hb_already_stopped;
      action = action;
    }) in
    (w.hb_already_stopped, w.action)

abbrev pub no_action : MonitorAction
no_action = record { need_stop = false; need_start = false; need_exit = false; reason = "" }

-- `check`, with `hbAlreadyStoped` before and behind it
unfoldable pub check : LimitedList HbSnapshot → Bool → Bool × MonitorAction
unfolding recover check_heartbeat
check snapshots hb_already_stopped =
    let (stopped, action) = check_heartbeat snapshots hb_already_stopped (recover no_action) in
    if action.need_stop
    then (stopped, action)
    else if action.need_exit
    then (stopped, action)
    else if action.need_start
    then (false, action)
    else (stopped, action)
