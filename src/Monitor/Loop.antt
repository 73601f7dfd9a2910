-- ===== src/Monitor/Loop.antt =====
-- monitor/monitor.go: the rounds of `doMonitor`. The events are those handed to `sendEventToServer`;
-- the process ends where an exit is asked for, and the ten seconds of sleep leave no trace.
use Prim.Native.String.{◌++◌ as str_append}
use chaosblade_box_agent.Prelude.{
  Option, none, some, String, Bool, true, false, List, [], ◌∷◌, ◌++◌, if◌then◌else◌,
}
use chaosblade_box_agent.Tools.LimitedList.{LimitedList}
use chaosblade_box_agent.Conn.Heartbeat.{HbSnapshot}
use chaosblade_box_agent.Monitor.Checker.{
  MonitorAction, check, hb_stop_threshold, hb_start_threshold,
}
use chaosblade_box_agent.Monitor.Checker.Verdict.{scan}
use chaosblade_box_agent.Monitor.Checker.Decides.{check-scan, settled, outcomes}

-- `sendEventToServer(event, reason)`, and the SIGTERM that `doMonitor` sends to its own process
pub data Event : Type 0 where
  stop start : String → Event
  terminate : Event

-- `fmt.Sprintf` of the two messages
abbrev bracket : String → String → String → String
bracket before reason behind = str_append before (str_append reason behind)

-- `StopWithReason` and `StartWithReason` start the report of one event
abbrev stop_with_reason : MonitorAction → List Event
stop_with_reason action =
    if action.need_stop
    then stop (bracket "monitor exception[" action.reason "], stop") ∷ []
    else []

abbrev exit_event : MonitorAction → List Event
exit_event action = if action.need_exit then terminate ∷ [] else []

abbrev start_with_reason : MonitorAction → List Event
start_with_reason action =
    if action.need_start then start (bracket "recover[" action.reason "], start") ∷ [] else []

-- one round of the loop, in the source's order
unfoldable pub do_monitor_round : LimitedList HbSnapshot → Bool → Bool × List Event
do_monitor_round snapshots hb_already_stopped =
    let (stopped, action) = check snapshots hb_already_stopped in
    (stopped, stop_with_reason action ++ (exit_event action ++ start_with_reason action))

-- the rounds over the snapshots that each of them finds
unfoldable pub do_monitor : List (LimitedList HbSnapshot) → Bool → List Event
unfolding do_monitor_round
do_monitor [] hb_already_stopped = []
do_monitor (snapshots ∷ later) hb_already_stopped =
    let (stopped, events) = do_monitor_round snapshots hb_already_stopped in
    events ++ do_monitor later stopped

-- stops and starts in turn, a stop first unless one is in force, and nothing else
abbrev pub Alternates : Bool → List Event → Type 0
Alternates stopped [] = Unit
Alternates false (stop r ∷ es) = Alternates true es
Alternates true (start r ∷ es) = Alternates false es
Alternates stopped (e ∷ es) = ⊥

-- the events of one round, from its action
abbrev round_events : MonitorAction → List Event
round_events action = stop_with_reason action ++ (exit_event action ++ start_with_reason action)

settled-Alternates :
    (verdict : Option Bool) (stopped : Bool) (later : List Event)
    → Alternates (settled verdict stopped).0 later
    → Alternates stopped (round_events (settled verdict stopped).1 ++ later)
settled-Alternates none stopped later a = a
settled-Alternates (some false) true later a = a
settled-Alternates (some false) false later a = a
settled-Alternates (some true) true later a = a
settled-Alternates (some true) false later a = a

-- Whatever the heartbeats, the monitor reports stops and starts in turn, beginning with a stop, and
-- never ends the process.
pub do_monitor-Alternates :
    (rounds : List (LimitedList HbSnapshot)) (stopped : Bool)
    → Alternates stopped (do_monitor rounds stopped)
unfolding do_monitor
do_monitor-Alternates [] stopped = tt
do_monitor-Alternates (snapshots ∷ later) stopped =
    rw (check-scan snapshots stopped)
      (settled-Alternates verdict stopped _ (do_monitor-Alternates later _))
  where
    verdict : Option Bool
    verdict = scan hb_stop_threshold hb_start_threshold 0 0 (outcomes snapshots)
