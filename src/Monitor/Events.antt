-- ===== src/Monitor/Events.antt =====
-- monitor/monitor.go: `sendEventToServer`, with the addresses that `InitTransprotUri` registers.
use chaosblade_box_agent.Prelude.{◌≡◌, refl, String, true, none, some, List, [], ◌∷◌, arith}
use chaosblade_box_agent.Prelude.Dict.{Dict, lookup}
use chaosblade_box_agent.Options.{Options}
use chaosblade_box_agent.Transport.Request.{Request, new_request, add_param}
use chaosblade_box_agent.Transport.Uri.{Uri, init_transport_uri}
use chaosblade_box_agent.Transport.Client.{Wire, Sent, invoke}
use chaosblade_box_agent.Monitor.Loop.{Event, stop, start, terminate}

-- the request of an event
unfoldable pub event_request : Options → String → String → Request
unfolding new_request add_param
event_request opts event reason =
    add_param (add_param (new_request opts) "event" event) "reason" reason

-- `sendEventToServer`
unfoldable pub send_event_to_server : Options → Dict Uri → Wire → Sent → String → String → Sent
unfolding lookup event_request
send_event_to_server opts uris wire sent event reason = elim (lookup uris "event") [
  | none ↦ sent
  | some uri ↦ (invoke wire sent uri (event_request opts event reason) true).0
]

-- the events of the monitor, each sent by a goroutine of its own; the order is that in which they run
unfoldable pub send_events : Options → Dict Uri → Wire → Sent → List Event → Sent
unfolding send_event_to_server
send_events opts uris wire sent [] = sent
send_events opts uris wire sent (stop reason ∷ events) =
    send_events opts uris wire (send_event_to_server opts uris wire sent "stop" reason) events
send_events opts uris wire sent (start reason ∷ events) =
    send_events opts uris wire (send_event_to_server opts uris wire sent "start" reason) events
send_events opts uris wire sent (terminate ∷ events) = sent

no_event_uri : (opts : Options) → lookup (init_transport_uri opts) "event" ≡ none
unfolding lookup init_transport_uri
no_event_uri opts = refl

send_nothing :
    (opts : Options) (wire : Wire) (sent : Sent) (event reason : String)
    → send_event_to_server opts (init_transport_uri opts) wire sent event reason ≡ sent
unfolding send_event_to_server
send_nothing opts wire sent event reason = ground (arith, no_event_uri opts)

-- With the addresses that `InitTransprotUri` registers, no event of the monitor reaches the server.
pub send_events_nothing :
    (opts : Options) (wire : Wire) (sent : Sent) (events : List Event)
    → send_events opts (init_transport_uri opts) wire sent events ≡ sent
unfolding send_events
send_events_nothing opts wire sent [] = refl
send_events_nothing opts wire sent (stop reason ∷ events) =
    ground
      (arith, send_nothing opts wire sent "stop" reason, send_events_nothing opts wire sent events)
send_events_nothing opts wire sent (start reason ∷ events) =
    ground
      (arith, send_nothing opts wire sent "start" reason, send_events_nothing opts wire sent events)
send_events_nothing opts wire sent (terminate ∷ events) = refl
