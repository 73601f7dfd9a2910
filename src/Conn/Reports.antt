-- ===== src/Conn/Reports.antt =====
-- conn/asyncreport, conn/callback and conn/close: the messages that the agent sends of its own
-- accord. What comes back is only logged.
use chaosblade_box_agent.Prelude.{String, true, none, some, str_eq, if◌then◌else◌}
use chaosblade_box_agent.Prelude.Dict.{Dict, lookup}
use chaosblade_box_agent.Options.{Options}
use chaosblade_box_agent.Transport.Request.{Request, new_request, add_param}
use chaosblade_box_agent.Transport.Uri.{Uri, uri_at}
use chaosblade_box_agent.Transport.Client.{Wire, Sent, invoke}

-- the request of `ReportStatus`
unfoldable pub status_request : Options → String → String → String → String → Request
unfolding new_request add_param
status_request opts uid status error_msg tool_type =
    let request = add_param (add_param (new_request opts) "uid" uid) "status" status in
    let request = if str_eq error_msg "" then request else add_param request "error" error_msg in
    if str_eq tool_type "" then request else add_param request "ToolType" tool_type

-- `ReportStatus`
unfoldable pub report_status :
    Options → Wire → Sent → String → String → String → String → Uri → Sent
unfolding status_request
report_status opts wire sent uid status error_msg tool_type uri =
    (invoke wire sent uri (status_request opts uid status error_msg tool_type) true).0

-- `Callback`, with the printed status
unfoldable pub callback :
    Options → Dict Uri → Wire → Sent → String → String → String → String → String → String → Sent
unfolding new_request add_param lookup
callback opts uris wire sent status old_version new_version curr_version message program_type =
    elim (lookup uris "upgradeCallback") [
      | none ↦ sent
      | some uri ↦
          let request = new_request opts in
          let request = add_param request "oldVersion" old_version in
          let request = add_param request "newVersion" new_version in
          let request = add_param request "currVersion" curr_version in
          let request = add_param request "status" status in
          let request = add_param request "message" message in
          let request = add_param request "type" program_type in
          (invoke wire sent uri request true).0
    ]

-- `Shutdown`: the goroutine that it starts and gives two seconds
unfoldable pub shutdown : Options → Dict Uri → Wire → Sent → Sent
unfolding new_request
shutdown opts uris wire sent = (invoke wire sent (uri_at uris "close") (new_request opts) true).0
