-- ===== src/Options/Startup.antt =====
-- pkg/options/options.go: what the start of the agent sets behind the flags. What it reads of the
-- machine is a parameter, and so is the parser of IP addresses.
use chaosblade_box_agent.Prelude.{
  ◌⊎◌, inl, inr, String, Bool, true, false, ◌&&◌, Option, none, some, str_eq, if◌then◌else◌,
}
use chaosblade_box_agent.Prelude.Dict.{Dict}
use chaosblade_box_agent.Options.{Options, default_application_instance, default_application_group}
use chaosblade_box_agent.Tools.Record.{Disk, record_application_to_file, read_app_info_from_file}

-- what the start reads: the process id, the host's name, an address of an interface (none where there
-- is none), what `net.ParseIP` makes of a text (none for nil, else whether `To4` finds an IPv4 address
-- in it), the version of chaosblade (or an error), and whether the application file is there
pub record Host : Type 0 where
  pub pid : String
  pub host_name : String
  pub private_ip : Option String
  pub parse_ip : String → Option Bool
  pub chaosblade_version : String ⊎ String
  pub app_file_exists : Bool

-- `isValidIP`
unfoldable pub is_valid_ip : Host → String → Bool
is_valid_ip host ip = elim (host.parse_ip ip) [ none ↦ false | some is_ip_v4 ↦ is_ip_v4 ]

-- `InitApplicationInfo`: the options and the files that it leaves, and behind them its own copies of
-- the application and the group, which end with the call
unfoldable pub init_application_info :
    Disk
    → Host
    → Bool
    → Dict String
    → Options
    → String
    → String
    → (Options × Dict String) × (String × String)
unfolding record_application_to_file read_app_info_from_file
init_application_info disk host order files o app_instance app_group =
    if host.app_file_exists
      && (str_eq app_instance default_application_instance
          && str_eq app_group default_application_group)
    then (let (instance, group) : String × String = elim (read_app_info_from_file disk files) [
      | inl err ↦ ("", "")
      | inr recorded ↦ recorded
    ] in
        let app_instance = if str_eq instance "" then app_instance else instance in
        let app_group = if str_eq group "" then app_group else group in
        ((o, files), (app_instance, app_group)))
    else (
      (o, (record_application_to_file disk order files app_instance app_group true).0),
      (app_instance, app_group),
    )

-- the start goes on, or the process exits and leaves its files
pub data Started : Type 0 where
  started : Options → Dict String → Started
  exited : Dict String → Started

-- the address of the agent: the one of the flag, or one of the machine's
unfoldable pub choose_ip : Host → Options → Option String
unfolding is_valid_ip
choose_ip host o =
    if str_eq o.local_ip ""
    then host.private_ip
    else if is_valid_ip host o.local_ip
    then some o.local_ip
    else none

-- the fields that `SetOthersByFlags` sets before it asks for the version
abbrev with_host : Host → Options → String → Options
with_host host o ip = record o {
  pid = host.pid;
  is_vpc = false;
  vpc_id = o.license;
  uid = "";
  ip = ip;
  host_name = host.host_name;
  instance_id = host.host_name;
  version = "1.1.0";
}

-- `SetOthersByFlags`
unfoldable pub set_others_by_flags : Disk → Host → Bool → Dict String → Options → Started
unfolding choose_ip init_application_info
set_others_by_flags disk host order files o = elim (choose_ip host o) [
  | none ↦ exited files
  | some ip ↦
      let begun = with_host host o ip in
      let ((o', files'), copies) =
        init_application_info disk host order files begun begun.application_instance
          begun.application_group in
      elim host.chaosblade_version [
        | inr err ↦ exited files'
        | inl version ↦ started (record o' { chaosblade_version = version }) files'
      ]
]
