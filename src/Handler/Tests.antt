-- ===== src/Handler/Tests.antt =====
-- web/handler on small inputs.
use chaosblade_box_agent.Prelude.{
  returned, panic, ◌≡◌, inl, refl, String, true, false, none, some, [], ◌∷◌, str_eq, if◌then◌else◌,
}
use chaosblade_box_agent.Prelude.Text.{fields, equal_fold}
use chaosblade_box_agent.Transport.Json.{Json, null, str, obj, field, end, as_string}
use chaosblade_box_agent.Transport.Request.{Request}
use chaosblade_box_agent.Transport.Response.{Response}
use chaosblade_box_agent.Transport.Uri.{init_transport_uri}
use chaosblade_box_agent.Transport.Samples.{some_options, some_wire}
use chaosblade_box_agent.Handler.Commands.{is_revoke_operation}
use chaosblade_box_agent.Prelude.{◌↔◌}
use chaosblade_box_agent.Prelude.Dict.{get}
use chaosblade_box_agent.Tools.Record.{
  Disk, record_application_to_file, app_instance_key, app_group_key,
}
use chaosblade_box_agent.Handler.Agent.{update_application_handle, update_application_handle-opts}
use chaosblade_box_agent.Handler.Chaosblade.{
  Blade, Reply, ChaosbladeHandler, new_chaosblade_handler, parse_result, exec_script,
  query_preparation_status, java_install,
}
use chaosblade_box_agent.Handler.Chaosblade.Exec.{finish, exec, handle}
use chaosblade_box_agent.Handler.Chaosblade.Wait.{timing_check, timing_check_status}
use chaosblade_box_agent.Handler.Chaosblade.Running.{
  after_command, exec-running, exec_failure_unchanged,
}
use chaosblade_box_agent.Handler.Chaosblade.Panics.{Faulty, exec_panics_iff}
use chaosblade_box_agent.Handler.Chaosblade.Tasks.{Reporter, run_task}
use chaosblade_box_agent.Handler.Chaosblade.Polls.{
  Polled, after_task, run_task-running, timing_check_status-Polled,
}
use chaosblade_box_agent.Handler.Chaosblade.Keeps.{Sound, made, commanded, Reachable-Sound}

abbrev reply_of : String → Reply
reply_of text = record { result = text; err_msg = ""; ok = true }

abbrev success_of : Json → Response
success_of result = record { code = 200; success = true; error = ""; result = result }

-- a record of a Java agent whose installation failed
abbrev broken_agent : Json
broken_agent = obj (field "Status" (str "Error") (field "Error" (str "no jvm") end))

-- a blade that echoes the command, and a decoder that reads the answer to it
abbrev some_blade : Blade
some_blade = record {
  bin_exists = true;
  blade = λ calls args. reply_of args;
  decode_response = λ text.
      if str_eq text "create cpu load"
      then some (success_of (str "e1"))
      else if str_eq text "create k8s pod-pod delete"
      then some (success_of (obj (field "uid" (str "k1") end)))
      else if str_eq text "version"
      then some (success_of (str "1.7"))
      else if str_eq text "status j1"
      then some (success_of broken_agent)
      else if str_eq text "create mem load"
      then some (record { code = 500; success = false; error = "busy"; result = null })
      else none;
  decode_map = λ text. none;
}

abbrev idle : ChaosbladeHandler
idle = record { running = ("j1", "prepare jvm") ∷ []; calls = []; tasks = [] }

words_create : fields "create cpu load" ≡ "create" ∷ "cpu" ∷ "load" ∷ []
unfolding fields
words_create = refl

words_version : fields "version" ≡ "version" ∷ []
unfolding fields
words_version = refl

parsed :
    ((parse_result some_blade "create cpu load").success ≡ true)
    × ((parse_result some_blade "create k8s pod-pod delete").success ≡ true)
    × ((parse_result some_blade "version").success ≡ true)
    × (as_string (parse_result some_blade "create k8s pod-pod delete").result ≡ none)
unfolding parse_result
parsed = (refl, refl, refl, refl)

exec-running_example :
    (exec some_blade 20 idle "create cpu load").0.running
    ≡ after_command idle.running "create cpu load" "create" "cpu"
        (parse_result some_blade "create cpu load")
exec-running_example =
    exec-running some_blade 20 idle "create cpu load" "create" "cpu" ("load" ∷ []) words_create refl
      refl parsed.0

abbrev busy : Response
busy = record { code = 500; success = false; error = "busy"; result = null }

busy_returned : (exec some_blade 20 idle "create mem load").1 ≡ returned busy
unfolding exec fields parse_result finish exec_script
busy_returned = refl

exec_failure_unchanged_example :
    ((exec some_blade 20 idle "create mem load").0.running ≡ idle.running)
    × ((exec some_blade 20 idle "create mem load").0.tasks ≡ idle.tasks)
exec_failure_unchanged_example =
    exec_failure_unchanged some_blade 20 idle "create mem load" busy busy_returned refl

exec_panics_iff_example : ((exec some_blade 20 idle "version").1 ≡ panic) ↔ (
    (some_blade.bin_exists ≡ true)
    × ((some_blade.blade [] "version").ok ≡ true)
    × ((parse_result some_blade (some_blade.blade [] "version").result).success ≡ true)
    × Faulty "version" [] (parse_result some_blade (some_blade.blade [] "version").result))
unfolding is_revoke_operation
exec_panics_iff_example =
    exec_panics_iff some_blade 20 idle "version" "version" [] words_version refl

version_panics : (exec some_blade 20 idle "version").1 ≡ panic
version_panics = exec_panics_iff_example.1 (refl, refl, parsed.2, inl refl)

abbrev some_reporter : Reporter
some_reporter = record {
  opts = some_options;
  uris = init_transport_uri some_options;
  wire = some_wire;
}

run_task-running_example :
    (run_task some_blade some_reporter 60 idle [] (java_install "j1")).0.0.running
    ≡ after_task idle.running (java_install "j1") (timing_check_status some_blade 60 idle "j1").1
run_task-running_example = run_task-running some_blade some_reporter 60 idle [] (java_install "j1")

timing_check_status-Polled_example : Polled 60 idle (timing_check_status some_blade 60 idle "j1")
timing_check_status-Polled_example = timing_check_status-Polled some_blade 60 idle "j1"

timing_test : (timing_check_status some_blade 60 idle "j1").1 ≡ some ("Error", "no jvm")
unfolding timing_check_status timing_check query_preparation_status equal_fold
timing_test = refl

abbrev create_request : Request
create_request = record { headers = []; params = ("cmd", "create cpu load") ∷ [] }

Reachable-Sound_example :
    Sound (handle some_blade 20 new_chaosblade_handler create_request).0.running
Reachable-Sound_example =
    Reachable-Sound some_blade some_reporter 20
      (handle some_blade 20 new_chaosblade_handler create_request).0
      (commanded new_chaosblade_handler create_request made)

abbrev no_request : Request
no_request = record { headers = []; params = [] }

abbrev control : String → Reply
control path = record { result = ""; err_msg = ""; ok = true }

abbrev ctl : String
ctl = "/opt/ctl"

abbrev full_disk : Disk
full_disk = record {
  open_error = λ path. none;
  write = λ text. ("", some "no space left");
  overwrite = λ old text. text;
  read_error = λ path. none;
  app_file = "/agent/.chaos.app";
  cert_file = "/root/.chaos.cert";
}

abbrev rename_request : Request
rename_request = record { headers = []; params = ("appInstance", "shop") ∷ [] }

update_application_handle-opts_example :
    let ((opts', files'), response) =
      update_application_handle full_disk true some_options [] rename_request in
    (opts'.application_instance ≡ (
      if str_eq (get rename_request.params app_instance_key) ""
      then some_options.application_instance
      else get rename_request.params app_instance_key))
    × (opts'.application_group ≡ (
        if str_eq (get rename_request.params app_group_key) ""
        then some_options.application_group
        else get rename_request.params app_group_key))
    × ((response.success ≡ true) ↔ (
        (record_application_to_file full_disk true [] opts'.application_instance
          opts'.application_group true).1
        ≡ none))
update_application_handle-opts_example =
    update_application_handle-opts full_disk true some_options [] rename_request
