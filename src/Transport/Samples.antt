-- ===== src/Transport/Samples.antt =====
-- Sample options, requests and surroundings, for the tests.
use chaosblade_box_agent.Prelude.{ℕ, ◌⊎◌, inl, inr, String, true, false, List, [], ◌∷◌}
use chaosblade_box_agent.Prelude.Dict.{Dict}
use chaosblade_box_agent.Options.{Options}
use chaosblade_box_agent.Tools.Auth.{Keys}
use chaosblade_box_agent.Transport.Json.{null}
use chaosblade_box_agent.Transport.Response.{Response}
use chaosblade_box_agent.Transport.Request.{Request}
use chaosblade_box_agent.Transport.Uri.{Uri}
use chaosblade_box_agent.Transport.Client.{Wire}

abbrev pub some_options : Options
some_options = record {
  environment = "prod";
  is_vpc = false;
  vpc_id = "vpc";
  pid = "42";
  cid = "c1";
  uid = "u1";
  ip = "10.0.0.1";
  host_name = "h";
  instance_id = "h";
  namespace = "default";
  license = "lic";
  agent_mode = "host";
  install_operator = "linux";
  port = "19527";
  heartbeat_period = 5;
  application_instance = "app";
  application_group = "group";
  startup_mode = "console";
  restricted_vpc = false;
  version = "1.1.0";
  chaosblade_version = "1.7";
  litmus_chaos_version = "";
  cluster_id = "";
  cluster_name = "";
  pod_metric_flag = false;
  external_ip_enable = false;
  local_ip = "";
}

abbrev pub some_sum : String → List ℕ
some_sum s = 7 ∷ 255 ∷ []

abbrev pub some_marshal : Dict String → String ⊎ String
some_marshal m = inl "{}"

abbrev pub some_keys : Keys
some_keys = record { local_access_key = "AK"; local_secure_key = "SK" }

abbrev pub no_keys : Keys
no_keys = record { local_access_key = ""; local_secure_key = "" }

abbrev pub some_request : Request
some_request = record {
  headers = ("uid", "u1") ∷ ("v", "1") ∷ [];
  params = ("ts", "17") ∷ ("v", "2") ∷ [];
}

abbrev pub ok_response : Response
ok_response = record { code = 200; success = true; error = ""; result = null }

abbrev pub wire_of : Keys → Wire
wire_of keys = record {
  keys = keys;
  unix_nano = 1700000000000000000;
  uuid = "r1";
  sum256 = some_sum;
  marshal = some_marshal;
  marshal_request = λ request. inl "{request}";
  do_invoker = λ uri text. inl "{answer}";
  decode_response = λ text. inr ok_response;
}

abbrev pub some_wire : Wire
some_wire = wire_of some_keys

abbrev pub some_uri : Uri
some_uri = record {
  server_name = "Chaos";
  handler_name = "chaos/AgentHeartBeat";
  vpc_id = "vpc";
  ip = "10.0.0.1";
  pid = "42";
  tag = "CHAOS_AGENT";
  request_id = "";
  compress_version = "1";
}

abbrev pub now : ℕ
now = 1700000000000000000
