-- ===== src/Transport/Uri.antt =====
-- transport/request.go and transport.go: the addresses of the server's handlers
use chaosblade_box_agent.Prelude.{String, none, some, []}
use chaosblade_box_agent.Prelude.Dict.{Dict, lookup, insert}
use chaosblade_box_agent.Options.{Options, program_name}

pub record Uri : Type 0 where
  pub server_name : String
  pub handler_name : String
  pub vpc_id : String
  pub ip : String
  pub pid : String
  pub tag : String
  pub request_id : String
  pub compress_version : String

abbrev pub chaos : String
chaos = "Chaos"

-- `NewUri`; NoCompress is 1
unfoldable pub new_uri : Options → String → String → Uri
new_uri opts server_name handler_name = record {
  server_name = server_name;
  handler_name = handler_name;
  vpc_id = opts.vpc_id;
  ip = opts.ip;
  pid = opts.pid;
  tag = program_name;
  request_id = "";
  compress_version = "1";
}

-- `InitTransprotUri`: the map that it leaves in `TransportUriMap`
unfoldable pub init_transport_uri : Options → Dict Uri
unfolding insert new_uri
init_transport_uri opts =
    let m : Dict Uri = [] in
    let m = insert m "registry" (new_uri opts chaos "chaos/AgentRegister") in
    let m = insert m "heartbeat" (new_uri opts chaos "chaos/AgentHeartBeat") in
    let m = insert m "close" (new_uri opts chaos "chaos/AgentClosed") in
    let m = insert m "chaosbladeAsync" (new_uri opts chaos "chaos/chaosbladeAsync") in
    let m = insert m "javaInstall" (new_uri opts chaos "chaos/javaAgentInstall") in
    let m = insert m "javaUninstall" (new_uri opts chaos "chaos/javaAgentUninstall") in
    insert m "k8sPod" (new_uri opts chaos "chaos/k8sPod")

-- `TransportUriMap[api]` of a missing key
abbrev pub no_uri : Uri
no_uri = record {
  server_name = "";
  handler_name = "";
  vpc_id = "";
  ip = "";
  pid = "";
  tag = "";
  request_id = "";
  compress_version = "";
}

abbrev pub uri_at : Dict Uri → String → Uri
uri_at m api = elim (lookup m api) [ none ↦ no_uri | some uri ↦ uri ]
