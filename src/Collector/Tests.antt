-- ===== src/Collector/Tests.antt =====
-- collector/kubernetes on small inputs.
use chaosblade_box_agent.Prelude.{
  ◌≡◌, ◌≢◌, refl, ◌⊎◌, inl, inr, arith, String, true, false, Option, none, some, List, [], ◌∷◌,
  is_some, returned,
}
use chaosblade_box_agent.Prelude.Dict.{Dict, lookup, get, insert, IsMap}
use chaosblade_box_agent.Prelude.Text.{trim_space, before_comma}
use chaosblade_box_agent.Transport.Interceptor.{invoke as chain_invoke, build_interceptor}
use chaosblade_box_agent.Transport.Json.{str, obj, field, end, Fields}
use chaosblade_box_agent.Transport.Request.{add_param}
use chaosblade_box_agent.Transport.Client.{Wire, answered, failed, invoke, transmit}
use chaosblade_box_agent.Transport.Client.Sends.{Succeeds}
use chaosblade_box_agent.Transport.Samples.{some_options, some_wire, some_uri}
use chaosblade_box_agent.Collector.{ResourceIdentifier, PodInfo}
use chaosblade_box_agent.Collector.Metric.{
  K8sBaseCollector, add_cids, report_k8s_metric, metric_request, accept_answer,
}
use chaosblade_box_agent.Collector.Metric.Resets.{reported, with_cid, report_success_cids}
use chaosblade_box_agent.Collector.Pod.{Pod, get_pod_info, sweep, gone_info}
use chaosblade_box_agent.Collector.Pod.State.{
  PodStatus, ContainerStatus, get_pod_state, get_pod_restart_count,
}
use chaosblade_box_agent.Collector.Increment.Tracks.{uids, mem, Unmarked}
use chaosblade_box_agent.Collector.Increment.{collect}
use chaosblade_box_agent.Collector.Pod.{report, pod_info}
use chaosblade_box_agent.Transport.Samples.{ok_response}
use chaosblade_box_agent.Collector.Pod.Tracks.{pod_uid, Served, report-Unmarked}
use chaosblade_box_agent.Collector.Pod.ExternalIp.{
  set_agent_external_ip, Taken, set_agent_external_ip-Taken,
}

abbrev waiting : ContainerStatus
waiting = record {
  waiting = some "CrashLoopBackOff";
  terminated = none;
  running = false;
  ready = false;
  restart_count = 4;
}

abbrev well : ContainerStatus
well = record { waiting = none; terminated = none; running = true; ready = true; restart_count = 1 }

abbrev crashing : PodStatus
crashing = record {
  phase = "Running";
  reason = "";
  init_container_statuses = [];
  init_containers = 0;
  container_statuses = well ∷ waiting ∷ [];
  deletion_timestamp = false;
}

abbrev pod_of : String → Pod
pod_of uid = record {
  uid = uid;
  config_hash = none;
  name = "web";
  created_time = "2025";
  labels = [];
  namespace = "default";
  pod_ip = "10.1.0.7";
  owners = ("ReplicaSet", "rs1") ∷ [];
  status = crashing;
}

state_test : (get_pod_state crashing ≡ "CrashLoopBackOff") × (get_pod_restart_count crashing ≡ 5)
unfolding get_pod_state get_pod_restart_count
state_test = (refl, refl)

abbrev known : String → String → ResourceIdentifier
known uid cid = record { uid = uid; cid = cid; md5 = "m"; curr = false; name = "web" }

abbrev cache : Dict ResourceIdentifier
cache = ("p1", known "p1" "c1") ∷ ("p2", known "p2" "c2") ∷ ("p3", known "p3" "") ∷ []

abbrev same_sum : PodInfo → Option String
same_sum info = some "m"

cache-IsMap : IsMap cache
unfolding lookup
cache-IsMap = (refl, (refl, (refl, tt)))

cache-Unmarked : Unmarked cache
unfolding lookup
cache-Unmarked k = ground arith

gone_test :
    (sweep (get_pod_info same_sum [] cache (pod_of "p1" ∷ pod_of "p9" ∷ [])).0).1
    ≡ gone_info (known "p2" "c2") ∷ []
unfolding sweep get_pod_info
gone_test = refl

abbrev collector : K8sBaseCollector
collector = record {
  resource_name = "pods";
  identifiers = cache;
  second_identifiers = [];
  uri = some_uri;
  report_handler = "chaos/k8sPod";
}

abbrev some_pods_marshal : List String → String ⊎ String
some_pods_marshal pods = inl "[]"

-- a server that cannot be reached
abbrev cut_wire : Wire
cut_wire = record some_wire { do_invoker = λ uri text. inr "connection refused" }

cut_call :
    reported some_options some_pods_marshal cut_wire [] collector ("p1" ∷ [])
    ≡ failed none "connection refused"
unfolding invoke transmit chain_invoke build_interceptor get insert add_param metric_request
cut_call = refl

cut_fails : Succeeds (reported some_options some_pods_marshal cut_wire [] collector ("p1" ∷ [])) → ⊥
cut_fails (response, e, s) = cc (cut_call, e)

abbrev cids : Fields
cids = field "p3" (str "c3") end

abbrev cid_wire : Wire
cid_wire = record some_wire {
  decode_response =
      λ text. inr (record { code = 200; success = true; error = ""; result = obj cids });
}

cid_answered :
    (reported some_options some_pods_marshal cid_wire [] collector ("p1" ∷ [])
      ≡ answered (record { code = 200; success = true; error = ""; result = obj cids }))
    × ((report_k8s_metric some_options some_pods_marshal cid_wire [] collector true ("p1" ∷ [])).1
        ≡ returned tt)
unfolding report_k8s_metric invoke transmit chain_invoke build_interceptor get accept_answer
cid_answered = (refl, refl)

report_success_cids_example :
    lookup
      (report_k8s_metric some_options some_pods_marshal cid_wire [] collector true
        ("p1" ∷ [])).0.1.identifiers
      "p3"
    ≡ with_cid cids "p3" (lookup cache "p3")
report_success_cids_example =
    report_success_cids some_options some_pods_marshal cid_wire [] collector true "p1" []
      (record { code = 200; success = true; error = ""; result = obj cids }) cids "p3"
      cid_answered.0 refl refl refl refl cid_answered.1

abbrev pods_marshal : List PodInfo → String ⊎ String
pods_marshal pods = inl "[]"

abbrev two_pods : List Pod
two_pods = pod_of "p1" ∷ pod_of "p9" ∷ []

pods-Served :
    Served same_sum pods_marshal some_options [] cid_wire some_wire [] collector two_pods cids
unfolding collect sweep add_cids pod_info invoke transmit chain_invoke build_interceptor get insert
    add_param metric_request
pods-Served = (
  refl,
  (record { code = 200; success = true; error = ""; result = obj cids }, refl, refl, refl),
  (ok_response, refl, refl),
)

report-Unmarked_example :
    let ((sent', collector'), outcome) =
      report same_sum pods_marshal some_options cid_wire some_wire [] collector [] two_pods in
    (outcome ≡ returned tt)
    × ((k : String) → is_some (lookup collector'.identifiers k) ≡ mem k (uids pod_uid two_pods))
    × Unmarked collector'.identifiers
report-Unmarked_example =
    report-Unmarked same_sum pods_marshal some_options [] cid_wire some_wire [] collector two_pods
      cids (λ info. ("m", refl)) cache-IsMap cache-Unmarked refl pods-Served

set_agent_external_ip-Taken_example :
    ((some_options.local_ip ≢ "")
      × (set_agent_external_ip some_options (("chaos-agent", "47.1.2.3,10.0.0.2") ∷ [])
          ≡ some_options))
    ⊎ ((some_options.local_ip ≡ "")
        × Taken some_options
            (("chaos-agent", "47.1.2.3,10.0.0.2") ∷ [])
            (set_agent_external_ip some_options (("chaos-agent", "47.1.2.3,10.0.0.2") ∷ [])))
set_agent_external_ip-Taken_example =
    set_agent_external_ip-Taken some_options (("chaos-agent", "47.1.2.3,10.0.0.2") ∷ [])

external_ip_test :
    (set_agent_external_ip some_options (("chaos-agent", "47.1.2.3,10.0.0.2") ∷ [])).ip ≡ "47.1.2.3"
unfolding set_agent_external_ip trim_space before_comma
external_ip_test = refl
