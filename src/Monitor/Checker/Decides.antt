-- ===== src/Monitor/Checker/Decides.antt =====
-- When the check asks for a stop or a start.
use chaosblade_box_agent.Prelude.{
  ◌≡◌, refl, ◌↔◌, Bool, true, false, Option, none, some, List, [], ◌∷◌, map, arith, reverse,
}
use chaosblade_box_agent.Monitor.Checker.Runs.{Decided}
use chaosblade_box_agent.Monitor.Checker.Verdict.{scan, run_iff, scan-eq-some}
use chaosblade_box_agent.Tools.LimitedList.{LimitedList, walk}
use chaosblade_box_agent.Conn.Heartbeat.{HbSnapshot}
use chaosblade_box_agent.Monitor.Checker.{
  MonitorAction, Walker, handle, check, no_action, hb_stop_threshold, hb_start_threshold,
}

-- the outcomes, newest first
abbrev pub outcomes : LimitedList HbSnapshot → List Bool
outcomes snapshots = map (λ (h : HbSnapshot). h.success) (reverse snapshots.list)

-- the flag and the action that a verdict leads to
abbrev pub ends_as : Option Bool → Bool → MonitorAction → Bool × MonitorAction
ends_as none stopped action = (stopped, action)
ends_as (some false) true action = (true, action)
ends_as (some false) false action = (
  true,
  record {
    need_stop = true;
    need_start = false;
    need_exit = false;
    reason = "stop because of heartbeat";
  },
)
ends_as (some true) true action =
    (true, record { need_stop = false; need_start = true; need_exit = false; reason = "" })
ends_as (some true) false action = (false, action)

walk-scan :
    (w : Walker) (vs : List HbSnapshot)
    → let w' = walk handle true vs w in
      ◌≡◌ {A = Bool × MonitorAction}
        (w'.hb_already_stopped, w'.action)
        (ends_as
          (scan 12 3 w.hb_fail_continuous_count w.hb_succ_continuous_count
            (map (λ (h : HbSnapshot). h.success) vs))
          w.hb_already_stopped
          w.action)
unfolding walk scan handle
walk-scan w [] = refl
walk-scan w (v ∷ vs) = ground (arith, walk-scan (handle w v).0 vs)

-- the same, with the reset of the flag that `check` makes on a start
abbrev pub settled : Option Bool → Bool → Bool × MonitorAction
settled (some true) true = (false, (ends_as (some true) true no_action).1)
settled v stopped = ends_as v stopped no_action

pub check-scan :
    (snapshots : LimitedList HbSnapshot) (stopped : Bool)
    → check snapshots stopped ≡ settled (scan 12 3 0 0 (outcomes snapshots)) stopped
unfolding check
check-scan snapshots stopped =
    let w : Walker = record {
      hb_fail_continuous_count = 0;
      hb_succ_continuous_count = 0;
      walker_list = [];
      hb_already_stopped = stopped;
      action = no_action;
    } in
    ground (arith, walk-scan w (reverse snapshots.list))

-- The check asks for a stop exactly when no stop is in force and twelve failures stand in a row with
-- no three successes in a row among them and the newer snapshots.
pub need_stop_iff :
    (snapshots : LimitedList HbSnapshot) (stopped : Bool)
    → ((check snapshots stopped).1.need_stop ≡ true) ↔ (
        (stopped ≡ false) × Decided false hb_stop_threshold hb_start_threshold (outcomes snapshots))
need_stop_iff snapshots stopped =
    let xs = outcomes snapshots in
    let (fails, succs) = scan-eq-some 12 3 0 0 xs (omega arith) (omega arith) in
    let (to, from) = run_iff false 12 3 xs (omega arith) (omega arith) in
    (
      λ e. (
        ground (arith, check-scan snapshots stopped),
        to (fails.0 (ground (arith, check-scan snapshots stopped))),
      ),
      λ d. let v = fails.1 (from d.1) in ground (arith, check-scan snapshots stopped),
    )

-- The check asks for a start exactly when a stop is in force and three successes stand in a row with
-- no twelve failures in a row among them and the newer snapshots.
pub need_start_iff :
    (snapshots : LimitedList HbSnapshot) (stopped : Bool)
    → ((check snapshots stopped).1.need_start ≡ true)
      ↔ ((stopped ≡ true) × Decided true hb_start_threshold hb_stop_threshold (outcomes snapshots))
need_start_iff snapshots stopped =
    let xs = outcomes snapshots in
    let (fails, succs) = scan-eq-some 12 3 0 0 xs (omega arith) (omega arith) in
    let (to, from) = run_iff true 3 12 xs (omega arith) (omega arith) in
    (
      λ e. (
        ground (arith, check-scan snapshots stopped),
        to (succs.0 (ground (arith, check-scan snapshots stopped))),
      ),
      λ d. let v = succs.1 (from d.1) in ground (arith, check-scan snapshots stopped),
    )
