-- ===== src/Collector/Common.antt =====
-- collector/kubernetes/common.go: the ports and the external address of a service. Addresses are in
-- ASCII, so that a text is cut at its code points where Go cuts it at its bytes.
use Prim.Native.String.{String, [] as nil, ◌∷◌ as cons, ◌++◌ as str_append}
use Prim.Native.Nat.{ℕ, zero, suc, ◌-◌}
use chaosblade_box_agent.Prelude.{
  ◌≡◌, refl, Bool, true, not, ◌&&◌, List, [], ◌∷◌, ◌++◌, str_eq, ltb, if◌then◌else◌,
}
use chaosblade_box_agent.Prelude.Strconv.{format_int}
use chaosblade_box_agent.Prelude.Sets.{join, split, set_insert}
use chaosblade_box_agent.Collector.Pod.State.{format_int32}

-- what is read of a `ServicePort`
pub record ServicePort : Type 0 where
  pub node_port : ℕ
  pub port : ℕ
  pub protocol : String
  pub name : String

-- `servicePortsToString`
unfoldable pub service_ports_to_string : List ServicePort → List String
unfolding format_int
service_ports_to_string [] = []
service_ports_to_string (port ∷ ports) =
    str_append (format_int32 port.node_port) (
      str_append "->" (
        str_append (format_int32 port.port)
          (str_append "/" (str_append port.protocol (str_append "/" port.name)))))
    ∷ service_ports_to_string ports

-- the set of the addresses of a load balancer, each an IP and a host name
unfoldable pub ingress_set : List String → List (String × String) → List String
unfolding set_insert
ingress_set result [] = result
ingress_set result ((ip, hostname) ∷ ingress) =
    ingress_set
      (if not (str_eq ip "")
        then set_insert result ip
        else if not (str_eq hostname "")
        then set_insert result hostname
        else result)
      ingress

-- the number of letters, and the first ones
abbrev pub text_length : String → ℕ
text_length nil = 0
text_length (cons c s) = suc (text_length s)

abbrev pub text_take : ℕ → String → String
text_take zero s = ""
text_take (suc n) nil = ""
text_take (suc n) (cons c s) = cons c (text_take n s)

abbrev pub load_balancer_width : ℕ
load_balancer_width = 16

-- `loadBalancerStatusStringer`
unfoldable pub load_balancer_status_stringer : List (String × String) → Bool → String
unfolding ingress_set join
load_balancer_status_stringer ingress wide =
    let r = join "," (ingress_set [] ingress) in
    if not wide && ltb load_balancer_width (text_length r)
    then str_append (text_take (load_balancer_width - 3) r) "..."
    else r

-- what is read of a service for its external address
pub record ServiceAddresses : Type 0 where
  pub service_type : String
  pub external_ips : List String
  pub external_name : String
  pub ingress : List (String × String)

-- the external addresses, where the service has no other
abbrev pub external_ips_or_none : List String → String
external_ips_or_none [] = "<none>"
external_ips_or_none (ip ∷ ips) = join "," (ip ∷ ips)

-- the address of a load balancer, from what its status says and the external addresses
abbrev pub balanced_ip : String → List String → String
balanced_ip lb_ips [] = if str_eq lb_ips "" then "<pending>" else lb_ips
balanced_ip lb_ips (ip ∷ ips) =
    join "," (if str_eq lb_ips "" then ip ∷ ips else split lb_ips "," ++ ip ∷ ips)

-- `getServiceExternalIP`
unfoldable pub get_service_external_ip : ServiceAddresses → Bool → String
unfolding load_balancer_status_stringer join split
get_service_external_ip svc wide =
    if str_eq svc.service_type "ClusterIP"
    then external_ips_or_none svc.external_ips
    else if str_eq svc.service_type "NodePort"
    then external_ips_or_none svc.external_ips
    else if str_eq svc.service_type "LoadBalancer"
    then balanced_ip (load_balancer_status_stringer svc.ingress wide) svc.external_ips
    else if str_eq svc.service_type "ExternalName"
    then svc.external_name
    else "<unknown>"

external_ip_tests :
    (get_service_external_ip
        (record {
          service_type = "LoadBalancer";
          external_ips = "9.9.9.9" ∷ [];
          external_name = "";
          ingress = ("", "lb.example") ∷ ("1.2.3.4", "x") ∷ [];
        })
        true
      ≡ "1.2.3.4,lb.example,9.9.9.9")
    × (service_ports_to_string
          (record { node_port = 32242; port = 80; protocol = "TCP"; name = "http" } ∷ [])
        ≡ "32242->80/TCP/http" ∷ [])
unfolding get_service_external_ip service_ports_to_string
external_ip_tests = (refl, refl)
