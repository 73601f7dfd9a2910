-- ===== src/Conn/Connect.antt =====
-- conn/connect/connect.go: the registration of the agent. What it reads of its machine (the uptime,
-- the number of processors, the memory) is a parameter.
pub mod Registers
use chaosblade_box_agent.Prelude.{
  ℕ, String, Bool, true, false, ◌||◌, Option, none, some, str_eq, if◌then◌else◌,
}
use chaosblade_box_agent.Prelude.Dict.{Dict}
use chaosblade_box_agent.Options.{
  Options, set_cid, set_uid, program_name, app_instance_key_name, app_group_key_name,
}
use chaosblade_box_agent.Tools.Auth.{Keys}
use chaosblade_box_agent.Tools.Record.{Disk, record_secret_key_to_file}
use chaosblade_box_agent.Transport.Json.{Json, null, Fields, lookup_field, as_string, as_map}
use chaosblade_box_agent.Transport.Response.{Response}
use chaosblade_box_agent.Transport.Request.{Request, new_request, add_param}
use chaosblade_box_agent.Transport.Uri.{Uri, uri_at}
use chaosblade_box_agent.Transport.Client.{Wire, Sent, Invoked, answered, failed, invoke}
use Prim.Native.String.{◌++◌ as str_append}

-- `mem_size` is the printed size of `/proc/meminfo`, none where it cannot be read
pub record Machine : Type 0 where
  pub uptime : String
  pub num_cpu : String
  pub mem_size : Option String

-- the options, and what `RecordSecretKeyToFile` changes
pub record Agent : Type 0 where
  pub opts : Options
  pub files : Dict String
  pub keys : Keys

-- `error`, nil or its message, or a panic of a type assertion
pub data Connected : Type 0 where
  connected : Connected
  rejected : String → Connected
  panicked : Connected

-- the request that `Start` sends; `options.Host` is 0
unfoldable pub connect_request : Machine → Options → Request
unfolding new_request add_param
connect_request machine opts =
    let request = new_request opts in
    let request = add_param request "ip" opts.ip in
    let request = add_param request "pid" opts.pid in
    let request = add_param request "type" program_name in
    let request = add_param request "uid" opts.uid in
    let request = add_param request "instanceId" opts.instance_id in
    let request = add_param request "namespace" opts.namespace in
    let request = add_param request "deviceId" opts.instance_id in
    let request = add_param request "deviceType" "0" in
    let request = add_param request "ak" opts.license in
    let request = add_param request "uptime" machine.uptime in
    let request = add_param request "startupMode" opts.startup_mode in
    let request = add_param request "v" opts.version in
    let request = add_param request "agentMode" opts.agent_mode in
    let request = add_param request "osType" opts.install_operator in
    let request = add_param request "cpuNum" machine.num_cpu in
    let request = add_param request "clusterId" opts.cluster_id in
    let request = add_param request "clusterName" opts.cluster_name in
    let request =
      if str_eq opts.chaosblade_version ""
      then request
      else add_param request "cbv" opts.chaosblade_version in
    let request : Request = elim machine.mem_size [
      | none ↦ request
      | some size ↦ add_param request "memSize" size
    ] in
    let request = add_param request app_instance_key_name opts.application_instance in
    let request = add_param request app_group_key_name opts.application_group in
    if opts.restricted_vpc
    then add_param (add_param request "restrictedVpc" "true") "vpcId" opts.license
    else add_param request "vpcId" opts.vpc_id

-- the value of a key that is there and is not nil
unfoldable pub present : Fields → String → Option Json
unfolding lookup_field
present fs k = elim (lookup_field fs k) [
  | none ↦ none
  | some v ↦ elim v [ null ↦ none | other ↦ some other ]
]

-- `v["cid"].(string)`: a missing key is a nil interface, and the assertion panics
abbrev pub cid_of : Fields → Option String
cid_of v = elim (lookup_field v "cid") [ none ↦ none | some cid ↦ as_string cid ]

module _ (disk : Disk) where
  -- from `ak, ok := v["ak"]` on
  unfoldable pub record_keys : Agent → Fields → Agent × Connected
  unfolding record_secret_key_to_file present
  record_keys agent v = elim (present v "ak") [
    | none ↦ (agent, rejected "accessKey or secretKey is empty")
    | some ak ↦ elim (present v "sk") [
      | none ↦ (agent, rejected "accessKey or secretKey is empty")
      | some sk ↦ elim (as_string ak) [
        | none ↦ (agent, panicked)
        | some access_key ↦ elim (as_string sk) [
          | none ↦ (agent, panicked)
          | some secret_key ↦
              let ((files, keys), err) =
                record_secret_key_to_file disk (agent.files, agent.keys) access_key secret_key in
              let agent = record agent { files = files; keys = keys } in
              elim err [ none ↦ (agent, connected) | some e ↦ (agent, rejected e) ]
        ]
      ]
    ]
  ]

  -- from `if v["uid"] != nil` on
  unfoldable pub take_uid : Agent → Fields → Agent × Connected
  unfolding present
  take_uid agent v = elim (present v "uid") [
    | none ↦ record_keys agent v
    | some uid ↦ elim (as_string uid) [
      | none ↦ (agent, panicked)
      | some text ↦ record_keys (record agent { opts = set_uid agent.opts text }) v
    ]
  ]

  -- `handleDirectHttpConnectResponse`
  unfoldable pub handle_direct_http_connect_response : Agent → Response → Agent × Connected
  handle_direct_http_connect_response agent response =
      if response.success
      then elim (as_map response.result) [
        | none ↦ (agent, rejected "response is error")
        | some v ↦ elim (cid_of v) [
          | none ↦ (agent, panicked)
          | some cid ↦ take_uid (record agent { opts = set_cid agent.opts cid }) v
        ]
      ]
      else (agent, rejected (str_append "connect server failed, " response.error))

  -- `Start`
  unfoldable pub connect_start :
      Machine → Wire → Dict Uri → Sent → Agent → (Sent × Agent) × Connected
  unfolding connect_request
  connect_start machine wire uris sent agent =
      let (sent', invoked) =
        invoke wire sent (uri_at uris "registry") (connect_request machine agent.opts) false in
      elim invoked [
        | failed response err ↦ ((sent', agent), rejected err)
        | answered response ↦
            let (agent', outcome) = handle_direct_http_connect_response agent response in
            ((sent', agent'), outcome)
      ]
