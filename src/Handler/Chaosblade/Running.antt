-- ===== src/Handler/Chaosblade/Running.antt =====
-- What a command does to the running experiments.
use chaosblade_box_agent.Prelude.{
  returned, ℕ, zero, suc, ◌≡◌, ap, refl, ◌∙◌, String, true, false, none, some, List, [], ◌∷◌, arith,
  if◌then◌else◌, Bool-cases, Option-cases, List-cases, inl, inr,
}
use chaosblade_box_agent.Prelude.Dict.{Dict, insert, delete, delete_absent}
use chaosblade_box_agent.Prelude.Text.{fields}
use chaosblade_box_agent.Transport.Json.{as_string}
use chaosblade_box_agent.Transport.Response.{Response}
use chaosblade_box_agent.Handler.Commands.{is_create_or_prepare_cmd, is_destroy_or_revoke_cmd}
use chaosblade_box_agent.Handler.Chaosblade.{
  Blade, ChaosbladeHandler, Reply, exec_script, parse_result, extract_uid_from_response,
  extract_uid_from_raw_result, query_preparation_status,
}
use chaosblade_box_agent.Handler.Chaosblade.Wait.{wait_tick, wait_for_k8s_status}
use chaosblade_box_agent.Handler.Chaosblade.Exec.{
  record_experiment, remove_experiment, drop_experiment, handle_cache_and_safe_point, wait_if_k8s,
  settle, finish, exec,
}

-- The running experiments behind a command that went well: one more under the uid that blade returned,
-- or the one of the argument gone.
abbrev pub after_command : Dict String → String → String → String → Response → Dict String
after_command running cmd command arg response =
    if is_create_or_prepare_cmd command
    then elim (as_string response.result) [ none ↦ running | some uid ↦ insert running uid cmd ]
    else if is_destroy_or_revoke_cmd command
    then delete running arg
    else running

module _ (env : Blade) where
  wait_tick-running :
      (ch : ChaosbladeHandler) (uid : String)
      → ((wait_tick env ch uid).0.running ≡ ch.running)
        × ((wait_tick env ch uid).0.tasks ≡ ch.tasks)
  unfolding wait_tick
  wait_tick-running ch uid = ground arith

  wait-running :
      (ticks : ℕ) (ch : ChaosbladeHandler) (uid : String)
      → ((wait_for_k8s_status env ticks ch uid).running ≡ ch.running)
        × ((wait_for_k8s_status env ticks ch uid).tasks ≡ ch.tasks)
  unfolding wait_for_k8s_status
  wait-running zero ch uid = (refl, refl)
  wait-running (suc ticks) ch uid =
      let (running, tasks) = wait_tick-running ch uid in
      let (running', tasks') = wait-running ticks (wait_tick env ch uid).0 uid in
      elim (Bool-cases (wait_tick env ch uid).1) [
        | inl over ↦ rw over (running, tasks)
        | inr waits ↦ rw waits (running' ∙ running, tasks' ∙ tasks)
      ]

  pub wait_if_k8s-running :
      (ticks : ℕ) (ch : ChaosbladeHandler) (cmd command uid : String)
      → ((wait_if_k8s env ticks ch cmd command uid).running ≡ ch.running)
        × ((wait_if_k8s env ticks ch cmd command uid).tasks ≡ ch.tasks)
  unfolding wait_if_k8s
  wait_if_k8s-running ticks ch cmd command uid = ground (arith, wait-running ticks ch uid)

  remove-running :
      (ch : ChaosbladeHandler) (uid : String)
      → (remove_experiment ch uid).running ≡ delete ch.running uid
  unfolding remove_experiment
  remove-running ch uid = ground (arith, delete_absent ch.running uid)

  query-running :
      (ch : ChaosbladeHandler) (uid : String)
      → (query_preparation_status env ch uid).0.running ≡ ch.running
  unfolding query_preparation_status
  query-running ch uid = ground arith

  drop-running :
      (ch : ChaosbladeHandler) (command arg : String)
      → (drop_experiment env ch command arg).0.running ≡ delete ch.running arg
  unfolding drop_experiment
  drop-running ch command arg =
      ground (arith, remove-running ch arg, query-running (remove_experiment ch arg) arg)

  cache-running :
      (ch : ChaosbladeHandler) (cmd command arg : String) (response : Response)
      → (handle_cache_and_safe_point env ch cmd command arg response).0.running
        ≡ after_command ch.running cmd command arg response
  unfolding handle_cache_and_safe_point record_experiment
  cache-running ch cmd command arg response = ground (arith, drop-running ch command arg)

  pub settle-running :
      (ch : ChaosbladeHandler) (cmd command arg : String) (rest : List String) (response : Response)
      → (settle env ch cmd command (arg ∷ rest) response).0.running
        ≡ after_command ch.running cmd command arg response
  unfolding settle
  settle-running ch cmd command arg rest response =
      ground (arith, cache-running ch cmd command arg response)

  settle-returned :
      (ch : ChaosbladeHandler) (cmd command : String) (rest : List String) (response r : Response)
      → (settle env ch cmd command rest response).1 ≡ returned r
      → r ≡ response
  unfolding settle
  settle-returned ch cmd command [] response r e = cc
  settle-returned ch cmd command (arg ∷ rest) response r e = ground arith

  pub finish-success :
      (ticks : ℕ) (ch : ChaosbladeHandler) (cmd command : String) (rest : List String)
      (reply : Reply)
      → reply.ok ≡ true
      → (parse_result env reply.result).success ≡ true
      → finish env ticks ch cmd command rest reply
        ≡ settle env
            (wait_if_k8s env ticks ch cmd command
              (extract_uid_from_response env (parse_result env reply.result) reply.result))
            cmd
            command
            rest
            (parse_result env reply.result)
  unfolding finish
  finish-success ticks ch cmd command rest reply fine success = ground arith

  finish_failure :
      (ticks : ℕ) (ch : ChaosbladeHandler) (cmd command : String) (rest : List String)
      (reply : Reply) (r : Response)
      → (finish env ticks ch cmd command rest reply).1 ≡ returned r
      → r.success ≡ false
      → ((finish env ticks ch cmd command rest reply).0.running ≡ ch.running)
        × ((finish env ticks ch cmd command rest reply).0.tasks ≡ ch.tasks)
  unfolding finish
  finish_failure ticks ch cmd command rest reply r e fails =
      let waited = wait_if_k8s-running ticks ch cmd command in
      let response = parse_result env reply.result in
      let uid = extract_uid_from_response env response reply.result in
      elim (Bool-cases reply.ok) [
        | inl fine ↦ ground (
          arith,
          waited uid,
          settle-returned (wait_if_k8s env ticks ch cmd command uid) cmd command rest response r,
        )
        | inr bad ↦ elim (Option-cases (env.decode_response reply.result)) [
          | inl undecoded ↦ ground (arith, waited (extract_uid_from_raw_result env reply.result))
          | inr (given, decoded) ↦
              ground (arith, waited (extract_uid_from_response env given reply.result))
        ]
      ]

  pub exec-words :
      (ticks : ℕ) (ch : ChaosbladeHandler) (cmd command : String) (rest : List String)
      → fields cmd ≡ command ∷ rest
      → env.bin_exists ≡ true
      → exec env ticks ch cmd
        ≡ finish env ticks
            (record ch { calls = cmd ∷ ch.calls })
            cmd
            command
            rest
            (env.blade ch.calls cmd)
  unfolding exec exec_script
  exec-words ticks ch cmd command rest words exists = ground arith

-- A command that the handler answers with a failure leaves the running experiments and the
-- goroutines as they were, whatever went wrong.
pub exec_failure_unchanged :
    (env : Blade) (ticks : ℕ) (ch : ChaosbladeHandler) (cmd : String) (r : Response)
    → (exec env ticks ch cmd).1 ≡ returned r
    → r.success ≡ false
    → ((exec env ticks ch cmd).0.running ≡ ch.running)
      × ((exec env ticks ch cmd).0.tasks ≡ ch.tasks)
unfolding exec exec_script
exec_failure_unchanged env ticks ch cmd r e fails = elim (List-cases (fields cmd)) [
  | inl blank ↦ ground arith
  | inr (command, rest, words) ↦
      let ch' : ChaosbladeHandler = record ch { calls = cmd ∷ ch.calls } in
      ground (arith, finish_failure env ticks ch' cmd command rest (env.blade ch.calls cmd) r)
]

-- A command of two words or more that blade carries out with success: the running experiments are
-- those before, changed as the command's verb says.
pub exec-running :
    (env : Blade) (ticks : ℕ) (ch : ChaosbladeHandler) (cmd command arg : String)
    (rest : List String)
    → fields cmd ≡ command ∷ arg ∷ rest
    → env.bin_exists ≡ true
    → (env.blade ch.calls cmd).ok ≡ true
    → (parse_result env (env.blade ch.calls cmd).result).success ≡ true
    → (exec env ticks ch cmd).0.running
      ≡ after_command ch.running cmd command arg (parse_result env (env.blade ch.calls cmd).result)
exec-running env ticks ch cmd command arg rest words exists fine success =
    let reply = env.blade ch.calls cmd in
    let response = parse_result env reply.result in
    let uid = extract_uid_from_response env response reply.result in
    let ch' : ChaosbladeHandler = record ch { calls = cmd ∷ ch.calls } in
    rw
      (
        exec-words env ticks ch cmd command (arg ∷ rest) words exists,
        finish-success env ticks ch' cmd command (arg ∷ rest) reply fine success,
      )
      (settle-running env (wait_if_k8s env ticks ch' cmd command uid) cmd command arg rest response
        ∙ ap (λ (m : Dict String). after_command m cmd command arg response)
            (wait_if_k8s-running env ticks ch' cmd command uid).0)
