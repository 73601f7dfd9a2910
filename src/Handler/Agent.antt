-- ===== src/Handler/Agent.antt =====
-- web/handler/ping.go, uninstallAgent.go and updateApplication.go.
use chaosblade_box_agent.Prelude.{
  ◌≡◌, ◌≢◌, ◌↔◌, String, Bool, true, not, ◌||◌, none, some, [], ◌∷◌, str_eq, if◌then◌else◌, arith,
  eq_iff, Option-cases, inl, inr,
}
use chaosblade_box_agent.Prelude.Dict.{Dict, get}
use chaosblade_box_agent.Options.{Options}
use chaosblade_box_agent.Tools.Record.{
  Disk, record_application_to_file, app_instance_key, app_group_key,
}
use chaosblade_box_agent.Transport.Request.{Request}
use chaosblade_box_agent.Transport.Response.{
  Response, return_fail, return_success, ctl_file_not_found, ctl_exec_failed, server_error,
}
use chaosblade_box_agent.Handler.Chaosblade.{Reply}

-- `PingHandler.Handle`
unfoldable pub ping_handle : Request → Response
ping_handle request = return_success

-- `UninstallInstallHandler.Handle`, with the path of the control file, whether it is there, and what
-- running it with `uninstall` returns
unfoldable pub uninstall_handle : String → (String → Bool) → (String → Reply) → Request → Response
uninstall_handle ctl_path is_exist exec_script request =
    if str_eq ctl_path "" || not (is_exist ctl_path)
    then return_fail ctl_file_not_found (ctl_path ∷ [])
    else let reply = exec_script ctl_path in
      if not reply.ok || not (str_eq reply.err_msg "")
      then return_fail ctl_exec_failed (reply.err_msg ∷ [])
      else return_success

-- the two assignments of `UpdateApplicationHandler.Handle`
unfoldable pub take_application : Options → Request → Options
unfolding get
take_application opts request =
    let app_instance = get request.params app_instance_key in
    let app_group = get request.params app_group_key in
    let opts =
      if str_eq app_instance ""
      then opts
      else record opts { application_instance = app_instance } in
    if str_eq app_group "" then opts else record opts { application_group = app_group }

-- `UpdateApplicationHandler.Handle`, with the options and the files before and behind it
unfoldable pub update_application_handle :
    Disk → Bool → Options → Dict String → Request → (Options × Dict String) × Response
unfolding take_application record_application_to_file
update_application_handle disk order opts files request =
    let opts = take_application opts request in
    let (files', err) =
      record_application_to_file disk order files opts.application_instance opts.application_group
        true in
    elim err [
      | none ↦ ((opts, files'), return_success)
      | some e ↦ (
        (opts, files'),
        return_fail server_error ("record application info to local file failed" ∷ []),
      )
    ]

-- The uninstallation is answered with a success exactly when the control file has a path, is there,
-- and ends well without an error text.
uninstall_handle_iff :
    (ctl_path : String) (is_exist : String → Bool) (exec_script : String → Reply)
    (request : Request)
    → ((uninstall_handle ctl_path is_exist exec_script request).success ≡ true) ↔ (
        (ctl_path ≢ "")
        × (is_exist ctl_path ≡ true)
        × ((exec_script ctl_path).ok ≡ true)
        × ((exec_script ctl_path).err_msg ≡ ""))
unfolding uninstall_handle return_fail return_success
uninstall_handle_iff ctl_path is_exist exec_script request = (
  ground (arith, eq_iff ctl_path "", eq_iff (exec_script ctl_path).err_msg ""),
  ground (arith, eq_iff ctl_path "", eq_iff (exec_script ctl_path).err_msg ""),
)

-- The options behind an update hold the application and the group of the request where they are not
-- blank and the old ones where they are, whether or not the file could be written; the answer is a
-- success exactly when it could.
pub update_application_handle-opts :
    (disk : Disk) (order : Bool) (opts : Options) (files : Dict String) (request : Request)
    → let ((opts', files'), response) = update_application_handle disk order opts files request in
      (opts'.application_instance ≡ (
        if str_eq (get request.params app_instance_key) ""
        then opts.application_instance
        else get request.params app_instance_key))
      × (opts'.application_group ≡ (
          if str_eq (get request.params app_group_key) ""
          then opts.application_group
          else get request.params app_group_key))
      × ((response.success ≡ true) ↔ (
          (record_application_to_file disk order files opts'.application_instance
            opts'.application_group true).1
          ≡ none))
unfolding update_application_handle take_application return_fail return_success
update_application_handle-opts disk order opts files request =
    let opts' = take_application opts request in
    let written =
      record_application_to_file disk order files opts'.application_instance opts'.application_group
        true in
    elim (Option-cases written.1) [ inl fine ↦ ground arith | inr (e, failed) ↦ ground arith ]
