-- ===== src/Conn/Sender.antt =====
-- conn/heartbeat/heartbeat.go: a tick of the heartbeat, and what it records of it.
use chaosblade_box_agent.Prelude.{◌≡◌, ◌↔◌, inl, inr, Bool, true, false, arith, if◌then◌else◌}
use chaosblade_box_agent.Prelude.Dict.{Dict}
use chaosblade_box_agent.Options.{Options, app_instance_key_name, app_group_key_name}
use chaosblade_box_agent.Tools.LimitedList.{LimitedList, put}
use chaosblade_box_agent.Transport.Request.{Request, new_request, add_param}
use chaosblade_box_agent.Transport.Uri.{Uri, uri_at}
use chaosblade_box_agent.Transport.Client.{Wire, Sent, answered, failed, invoke}
use chaosblade_box_agent.Transport.Client.Sends.{Succeeds, Invoked-cases}
use chaosblade_box_agent.Conn.Heartbeat.{HbSnapshot, record_heartbeat}

-- `sendHeartbeat`
unfoldable pub send_heartbeat :
    Wire → Sent → LimitedList HbSnapshot → Uri → Request → Sent × LimitedList HbSnapshot
unfolding record_heartbeat
send_heartbeat wire sent snapshots uri request =
    let (sent', invoked) = invoke wire sent uri request true in
    elim invoked [
      | failed response err ↦ (sent', record_heartbeat snapshots false)
      | answered response ↦
          if response.success
          then (sent', record_heartbeat snapshots true)
          else (sent', record_heartbeat snapshots false)
    ]

-- the request of one tick of `Start`
unfoldable pub heartbeat_request : Options → Request
unfolding new_request add_param
heartbeat_request opts =
    let request = new_request opts in
    let request = if opts.external_ip_enable then add_param request "ip" opts.ip else request in
    let request = add_param request app_instance_key_name opts.application_instance in
    add_param request app_group_key_name opts.application_group

-- one tick of `Start`
unfoldable pub heartbeat_tick :
    Options → Dict Uri → Wire → Sent → LimitedList HbSnapshot → Sent × LimitedList HbSnapshot
unfolding send_heartbeat heartbeat_request
heartbeat_tick opts uris wire sent snapshots =
    send_heartbeat wire sent snapshots (uri_at uris "heartbeat") (heartbeat_request opts)

send_heartbeat_records :
    (wire : Wire) (sent : Sent) (snapshots : LimitedList HbSnapshot) (uri : Uri) (request : Request)
    → (success : Bool) × ((send_heartbeat wire sent snapshots uri request).1
        ≡ record_heartbeat snapshots success)
      × ((success ≡ true) ↔ Succeeds (invoke wire sent uri request true).1)
unfolding send_heartbeat
send_heartbeat_records wire sent snapshots uri request =
    elim (Invoked-cases (invoke wire sent uri request true).1) [
      | inr (response, err, fails) ↦
          (false, ground arith, (λ e. absurd (ground arith), λ (r, e, s). absurd (ground arith)))
      | inl (response, answers) ↦
          (response.success, ground arith, (λ s. (response, answers, s), λ (r, e, s). ground arith))
    ]

-- A tick of the heartbeat puts one snapshot into the list: a success when the server answered with a
-- success, and else a failure.
pub heartbeat_tick_records :
    (opts : Options) (uris : Dict Uri) (wire : Wire) (sent : Sent)
    (snapshots : LimitedList HbSnapshot)
    → (success : Bool) × ((heartbeat_tick opts uris wire sent snapshots).1
        ≡ put snapshots (record { success = success }))
      × ((success ≡ true)
          ↔ Succeeds (invoke wire sent (uri_at uris "heartbeat") (heartbeat_request opts) true).1)
unfolding heartbeat_tick record_heartbeat
heartbeat_tick_records opts uris wire sent snapshots =
    send_heartbeat_records wire sent snapshots (uri_at uris "heartbeat") (heartbeat_request opts)
