-- ===== src/Monitor/Tests.antt =====
-- monitor on small inputs.
use chaosblade_box_agent.Prelude.{
  ◌≡◌, ◌↔◌, refl, Bool, true, false, List, [], ◌∷◌, ◌++◌, map, replicate,
}
use chaosblade_box_agent.Tools.LimitedList.{LimitedList}
use chaosblade_box_agent.Conn.Heartbeat.{HbSnapshot}
use chaosblade_box_agent.Transport.Samples.{some_options, some_wire}
use chaosblade_box_agent.Transport.Uri.{init_transport_uri}
use chaosblade_box_agent.Monitor.Checker.{check, hb_stop_threshold, hb_start_threshold}
use chaosblade_box_agent.Monitor.Checker.Runs.{Decided}
use chaosblade_box_agent.Monitor.Checker.Decides.{outcomes, need_stop_iff, need_start_iff}
use chaosblade_box_agent.Monitor.Loop.{stop, start, do_monitor, Alternates, do_monitor-Alternates}
use chaosblade_box_agent.Monitor.Events.{send_events, send_events_nothing}

abbrev snapshots_of : List Bool → LimitedList HbSnapshot
snapshots_of beats = record { cap = 26; list = map (λ (b : Bool). record { success = b }) beats }

-- two successes, twelve failures and two successes; the newest is the last
abbrev failing : LimitedList HbSnapshot
failing = snapshots_of (replicate 2 true ++ (replicate 12 false ++ replicate 2 true))

abbrev recovered : LimitedList HbSnapshot
recovered = snapshots_of (replicate 12 false ++ replicate 3 true)

need_stop_iff_example :
    ((check failing false).1.need_stop ≡ true)
    ↔ ((false ≡ false) × Decided false hb_stop_threshold hb_start_threshold (outcomes failing))
need_stop_iff_example = need_stop_iff failing false

need_stop_test : (check failing false).1.need_stop ≡ true
unfolding check
need_stop_test = refl

need_start_iff_example :
    ((check recovered true).1.need_start ≡ true)
    ↔ ((true ≡ true) × Decided true hb_start_threshold hb_stop_threshold (outcomes recovered))
need_start_iff_example = need_start_iff recovered true

do_monitor-Alternates_example :
    Alternates false (do_monitor (failing ∷ failing ∷ recovered ∷ failing ∷ []) false)
do_monitor-Alternates_example =
    do_monitor-Alternates (failing ∷ failing ∷ recovered ∷ failing ∷ []) false

do_monitor_test :
    do_monitor (failing ∷ failing ∷ recovered ∷ []) false
    ≡ stop "monitor exception[stop because of heartbeat], stop" ∷ start "recover[], start" ∷ []
unfolding do_monitor check
do_monitor_test = refl

send_events_nothing_example :
    send_events some_options
      (init_transport_uri some_options)
      some_wire
      []
      (stop "down" ∷ start "up" ∷ [])
    ≡ []
send_events_nothing_example =
    send_events_nothing some_options some_wire [] (stop "down" ∷ start "up" ∷ [])
