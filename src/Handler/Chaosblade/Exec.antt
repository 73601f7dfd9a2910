-- ===== src/Handler/Chaosblade/Exec.antt =====
-- `Handle`, `exec` and `handleCacheAndSafePoint` of web/handler/chaosblade.go.
use chaosblade_box_agent.Prelude.{
  Outcome, returned, panic, ℕ, String, Bool, none, some, List, [], ◌∷◌, str_eq, is_some,
  if◌then◌else◌,
}
use chaosblade_box_agent.Prelude.Dict.{lookup, insert, delete, get}
use chaosblade_box_agent.Prelude.Text.{fields, equal_fold}
use chaosblade_box_agent.Transport.Json.{as_string}
use chaosblade_box_agent.Transport.Request.{Request}
use chaosblade_box_agent.Transport.Response.{
  Response, return_fail, parameter_empty, parameter_less, chaosblade_file_not_found,
  result_unmarshal_failed,
}
use chaosblade_box_agent.Handler.Commands.{
  is_create_or_prepare_cmd, is_destroy_or_revoke_cmd, is_java_agent_install, is_revoke_operation,
  is_async_create, is_k8s_create_cmd, java_type,
}
use chaosblade_box_agent.Handler.Chaosblade.{
  Blade, ChaosbladeHandler, Reply, Task, java_install, java_uninstall, async_create, found, failed,
  panicked, exec_script, parse_result, query_preparation_status, extract_uid_from_response,
  extract_uid_from_raw_result,
}
use chaosblade_box_agent.Handler.Chaosblade.Wait.{wait_for_k8s_status}

-- `go …`
abbrev spawn : ChaosbladeHandler → Bool → Task → ChaosbladeHandler
spawn ch needed task = if needed then record ch { tasks = task ∷ ch.tasks } else ch

-- the branch for `create` and `prepare`
unfoldable pub record_experiment :
    ChaosbladeHandler → String → String → String → Response → ChaosbladeHandler × Outcome (Unit {0})
record_experiment ch cmdline command arg response = elim (as_string response.result) [
  | none ↦ (ch, panic)
  | some uid ↦
      let ch = record ch { running = insert ch.running uid cmdline } in
      let ch = spawn ch (is_java_agent_install command arg) (java_install uid) in
      (spawn ch (is_async_create cmdline) (async_create uid), returned tt)
]

-- `if _, ok := ch.running[uid]; ok { delete(ch.running, uid) }`
unfoldable pub remove_experiment : ChaosbladeHandler → String → ChaosbladeHandler
remove_experiment ch uid =
    if is_some (lookup ch.running uid) then record ch { running = delete ch.running uid } else ch

module _ (env : Blade) where
  -- the branch for `destroy` and `revoke`
  unfoldable pub drop_experiment :
      ChaosbladeHandler → String → String → ChaosbladeHandler × Outcome (Unit {0})
  drop_experiment ch command arg =
      let ch = remove_experiment ch arg in
      if is_revoke_operation command
      then (let (ch', queried) = query_preparation_status env ch arg in
          elim queried [
            | failed ↦ (ch', returned tt)
            | panicked ↦ (ch', panic)
            | found record' ↦ (
              spawn ch' (str_eq record'.program_type java_type) (java_uninstall arg),
              returned tt,
            )
          ])
      else (ch, returned tt)

  -- `handleCacheAndSafePoint`; its deferred unlock runs on a panic too
  unfoldable pub handle_cache_and_safe_point :
      ChaosbladeHandler
      → String
      → String
      → String
      → Response
      → ChaosbladeHandler × Outcome (Unit {0})
  handle_cache_and_safe_point ch cmdline command arg response =
      if is_create_or_prepare_cmd command
      then record_experiment ch cmdline command arg response
      else if is_destroy_or_revoke_cmd command
      then drop_experiment ch command arg
      else (ch, returned tt)

  -- `if isK8sCreateCmd(…) { uid := …; if uid != "" { ch.waitForK8sStatus(uid) } }`
  unfoldable pub wait_if_k8s : ℕ → ChaosbladeHandler → String → String → String → ChaosbladeHandler
  wait_if_k8s ticks ch cmd command uid =
      if is_k8s_create_cmd cmd command
      then (if str_eq uid "" then ch else wait_for_k8s_status env ticks ch uid)
      else ch

  -- `fields[1]` and then `handleCacheAndSafePoint`
  unfoldable pub settle :
      ChaosbladeHandler
      → String
      → String
      → List String
      → Response
      → ChaosbladeHandler × Outcome Response
  settle ch cmd command [] response = (ch, panic)
  settle ch cmd command (arg ∷ rest) response =
      let (ch', outcome) = handle_cache_and_safe_point ch cmd command arg response in
      elim outcome [ returned done ↦ (ch', returned response) | panic ↦ (ch', panic) ]

  -- what `exec` does with the reply of blade
  unfoldable pub finish :
      ℕ
      → ChaosbladeHandler
      → String
      → String
      → List String
      → Reply
      → ChaosbladeHandler × Outcome Response
  finish ticks ch cmd command rest reply =
      let response = parse_result env reply.result in
      let uid = extract_uid_from_response env response reply.result in
      if reply.ok
      then (if response.success
          then settle (wait_if_k8s ticks ch cmd command uid) cmd command rest response
          else (wait_if_k8s ticks ch cmd command uid, returned response))
      else elim (env.decode_response reply.result) [
        | none ↦ (
          wait_if_k8s ticks ch cmd command (extract_uid_from_raw_result env reply.result),
          returned (return_fail result_unmarshal_failed (reply.result ∷ reply.err_msg ∷ [])),
        )
        | some response ↦ (
          wait_if_k8s ticks ch cmd command (extract_uid_from_response env response reply.result),
          returned response,
        )
      ]

  -- `exec`
  unfoldable pub exec : ℕ → ChaosbladeHandler → String → ChaosbladeHandler × Outcome Response
  exec ticks ch cmd = elim (fields cmd) [
    | [] ↦ (ch, returned (return_fail parameter_less ("command" ∷ [])))
    | command ∷ rest ↦
        if env.bin_exists
        then (let (ch', reply) = exec_script env ch cmd in finish ticks ch' cmd command rest reply)
        else (ch, returned (return_fail chaosblade_file_not_found []))
  ]

  -- `Handle`
  unfoldable pub handle : ℕ → ChaosbladeHandler → Request → ChaosbladeHandler × Outcome Response
  handle ticks ch request =
      let cmd = get request.params "cmd" in
      if str_eq cmd ""
      then (ch, returned (return_fail parameter_empty ("cmd" ∷ [])))
      else exec ticks ch cmd

-- `deleteCallback`
unfoldable pub delete_callback : ChaosbladeHandler → String → String → ChaosbladeHandler
delete_callback ch uid status =
    if equal_fold status "Error"
    then (if is_some (lookup ch.running uid)
        then record ch { running = delete ch.running uid }
        else ch)
    else ch
