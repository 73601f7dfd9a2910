-- ===== src/Conn/Tests.antt =====
-- conn on small inputs.
use chaosblade_box_agent.Prelude.{◌⊎◌, ◌∷◌, false, some, ◌≡◌, ◌≢◌, ◌↔◌, refl, Bool, true, none, []}
use chaosblade_box_agent.Tools.Record.{Disk}
use chaosblade_box_agent.Tools.LimitedList.{LimitedList, put}
use chaosblade_box_agent.Transport.Json.{str, obj, field, end, lookup_field}
use chaosblade_box_agent.Transport.Response.{Response}
use chaosblade_box_agent.Transport.Client.{invoke}
use chaosblade_box_agent.Transport.Uri.{init_transport_uri, uri_at}
use chaosblade_box_agent.Transport.Samples.{some_options, some_wire, no_keys}
use chaosblade_box_agent.Conn.Metric.{
  ReportMetricConfigMap, stop, blocked, done, stop_blocks, self_blocked, r_lock,
}
use chaosblade_box_agent.Conn.Heartbeat.{HbSnapshot}
use chaosblade_box_agent.Conn.Connect.{
  Agent, connected, take_uid, record_keys, handle_direct_http_connect_response,
}
use chaosblade_box_agent.Conn.Connect.Registers.{Registered, connect_keys}
use chaosblade_box_agent.Transport.Client.Sends.{Succeeds}
use chaosblade_box_agent.Conn.Sender.{heartbeat_tick, heartbeat_request, heartbeat_tick_records}

abbrev good_disk : Disk
good_disk = record {
  open_error = λ path. none;
  write = λ text. (text, none);
  overwrite = λ old text. text;
  read_error = λ path. none;
  app_file = "/agent/.chaos.app";
  cert_file = "/root/.chaos.cert";
}

abbrev new_agent : Agent
new_agent = record { opts = some_options; files = []; keys = no_keys }

abbrev welcome : Response
welcome = record {
  code = 200;
  success = true;
  error = "";
  result = obj (field "cid" (str "c9") (field "ak" (str "AK") (field "sk" (str "SK") end)));
}

connect_keys_example :
    let (agent', outcome) = handle_direct_http_connect_response good_disk new_agent welcome in
    ((outcome ≡ connected) × Registered welcome agent')
    ⊎ ((outcome ≢ connected) × (agent'.keys ≡ no_keys))
connect_keys_example = connect_keys good_disk new_agent welcome

connect_test : (handle_direct_http_connect_response good_disk new_agent welcome).1 ≡ connected
unfolding handle_direct_http_connect_response lookup_field take_uid record_keys
connect_test = refl

abbrev no_beats : LimitedList HbSnapshot
no_beats = record { cap = 26; list = [] }

heartbeat_tick_records_example :
    (success : Bool) × ((heartbeat_tick some_options
        (init_transport_uri some_options)
        some_wire
        []
        no_beats).1
      ≡ put no_beats (record { success = success }))
    × ((success ≡ true)
        ↔ Succeeds
            (invoke some_wire []
              (uri_at (init_transport_uri some_options) "heartbeat")
              (heartbeat_request some_options)
              true).1)
heartbeat_tick_records_example =
    heartbeat_tick_records some_options (init_transport_uri some_options) some_wire [] no_beats

abbrev one_metric : ReportMetricConfigMap
one_metric = record {
  mutex = record { readers = 0; writer = false; waiting = 0 };
  report_metric_config =
      ("k8sPod", record { collector = some "pods"; enable = true; period = 10; ticker = some true })
      ∷ [];
}

stop_blocks_example :
    (((one_metric.mutex.writer ≡ true) ⊎ (one_metric.mutex.waiting ≢ 0))
      × (stop one_metric ≡ blocked one_metric))
    ⊎ ((one_metric.mutex.writer ≡ false)
        × (one_metric.mutex.waiting ≡ 0)
        × (((one_metric.report_metric_config ≢ [])
              × (stop one_metric ≡ blocked (self_blocked one_metric))
              × (r_lock (self_blocked one_metric).mutex ≡ none))
            ⊎ ((one_metric.report_metric_config ≡ []) × (stop one_metric ≡ done one_metric))))
stop_blocks_example = stop_blocks one_metric
