-- ===== src/Options.antt =====
-- pkg/options/options.go: the options that the other packages read, and their setters.
mod Tests
pub mod Version
pub mod Startup
pub mod Network
use chaosblade_box_agent.Prelude.{ℕ, String, Bool, ◌||◌, str_eq, if◌then◌else◌}

abbrev pub program_name : String
program_name = "CHAOS_AGENT"

abbrev pub agent_host_mode : String
agent_host_mode = "host"

abbrev pub agent_k8s_mode : String
agent_k8s_mode = "k8s"

abbrev pub agent_cs_k8s_mode : String
agent_cs_k8s_mode = "cs_k8s"

abbrev pub agent_k8s_helm_mode : String
agent_k8s_helm_mode = "k8s_helm"

abbrev pub agent_cs_k8s_helm_mode : String
agent_cs_k8s_helm_mode = "cs_k8s_helm"

abbrev pub app_instance_key_name : String
app_instance_key_name = "appInstance"

abbrev pub app_group_key_name : String
app_group_key_name = "appGroup"

abbrev pub default_application_instance : String
default_application_instance = "chaos-default-app"

abbrev pub default_application_group : String
default_application_group = "chaos-default-app-group"

-- `Options`, without the flag set and without the log and help settings
pub record Options : Type 0 where
  pub environment : String
  pub is_vpc : Bool
  pub vpc_id : String
  pub pid : String
  pub cid : String
  pub uid : String
  pub ip : String
  pub host_name : String
  pub instance_id : String
  pub namespace : String
  pub license : String
  pub agent_mode : String
  pub install_operator : String
  pub port : String
  pub heartbeat_period : ℕ
  pub application_instance : String
  pub application_group : String
  pub startup_mode : String
  pub restricted_vpc : Bool
  pub version : String
  pub chaosblade_version : String
  pub litmus_chaos_version : String
  pub cluster_id : String
  pub cluster_name : String
  pub pod_metric_flag : Bool
  pub external_ip_enable : Bool
  pub local_ip : String

unfoldable pub set_uid : Options → String → Options
set_uid o uid = record o { uid = uid }

unfoldable pub set_cid : Options → String → Options
set_cid o cid = record o { cid = cid }

-- `SetClusterIdIfNotPresent`
unfoldable pub set_cluster_id_if_not_present : Options → String → Options
set_cluster_id_if_not_present o cluster_id =
    if str_eq o.cluster_id "" then record o { cluster_id = cluster_id } else o

unfoldable pub is_k8s_mode : Options → Bool
is_k8s_mode o =
    str_eq o.agent_mode agent_k8s_mode
    || str_eq o.agent_mode agent_cs_k8s_mode
    || str_eq o.agent_mode agent_k8s_helm_mode
    || str_eq o.agent_mode agent_cs_k8s_helm_mode

unfoldable pub is_host_mode : Options → Bool
is_host_mode o = str_eq o.agent_mode agent_host_mode
