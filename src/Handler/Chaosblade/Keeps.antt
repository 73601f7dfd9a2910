-- ===== src/Handler/Chaosblade/Keeps.antt =====
-- The life of the handler of blade commands, and what its map of running experiments holds.
use chaosblade_box_agent.Prelude.{
  ℕ, ◌≡◌, ◌⊎◌, inl, inr, String, true, Option, none, some, List, [], ◌∷◌, arith, subst, str_eq,
  Option-cases, Bool-cases, List-cases,
}
use chaosblade_box_agent.Prelude.Dict.{
  Dict, get, insert, delete, lookup, lookup-insert, lookup-delete, IsMap, insert-IsMap,
  delete-IsMap,
}
use chaosblade_box_agent.Prelude.Text.{fields, equal_fold}
use chaosblade_box_agent.Transport.Json.{as_string}
use chaosblade_box_agent.Transport.Client.{Sent}
use chaosblade_box_agent.Transport.Request.{Request}
use chaosblade_box_agent.Transport.Response.{Response}
use chaosblade_box_agent.Handler.Commands.{is_create_or_prepare_cmd, is_destroy_or_revoke_cmd}
use chaosblade_box_agent.Handler.Chaosblade.{
  Blade, ChaosbladeHandler, Reply, Task, java_install, java_uninstall, async_create, exec_script,
  parse_result, extract_uid_from_response, extract_uid_from_raw_result, new_chaosblade_handler,
}
use chaosblade_box_agent.Handler.Chaosblade.Exec.{wait_if_k8s, settle, finish, exec, handle}
use chaosblade_box_agent.Handler.Chaosblade.Wait.{timing_check_status}
use chaosblade_box_agent.Handler.Chaosblade.Running.{
  after_command, wait_if_k8s-running, settle-running,
}
use chaosblade_box_agent.Handler.Chaosblade.Tasks.{Reporter, run_task}
use chaosblade_box_agent.Handler.Chaosblade.Polls.{after_task, uid_of, run_task-running}

-- a command line whose verb creates or prepares
abbrev pub IsCreate : String → Type 0
IsCreate cmd =
    (command : String) × (rest : List String) × (fields cmd ≡ command ∷ rest)
    × (is_create_or_prepare_cmd command ≡ true)

-- A map of running experiments: no uid twice, and each under the command line that started it.
abbrev pub Sound : Dict String → Type 0
Sound running = IsMap running × ((uid cmd : String) → lookup running uid ≡ some cmd → IsCreate cmd)

insert-Sound :
    (running : Dict String) (uid cmd : String)
    → IsCreate cmd
    → Sound running
    → Sound (insert running uid cmd)
insert-Sound running uid cmd creates (is_map, recorded) = (
  insert-IsMap running uid cmd is_map,
  λ k v e. elim (Bool-cases (str_eq uid k)) [
    | inl same ↦
        subst (λ (t : String). IsCreate t) (ground (arith, lookup-insert running uid k cmd)) creates
    | inr other ↦ recorded k v (ground (arith, lookup-insert running uid k cmd))
  ],
)

delete-Sound : (running : Dict String) (uid : String) → Sound running → Sound (delete running uid)
delete-Sound running uid (is_map, recorded) = (
  delete-IsMap running uid is_map,
  λ k v e. recorded k v (ground (arith, lookup-delete running uid k)),
)

after_command-Sound :
    (running : Dict String) (cmd command arg : String) (rest : List String) (response : Response)
    → fields cmd ≡ command ∷ rest
    → Sound running
    → Sound (after_command running cmd command arg response)
after_command-Sound running cmd command arg rest response words h =
    elim (Bool-cases (is_create_or_prepare_cmd command)) [
      | inl creates ↦ rw creates (elim (Option-cases (as_string response.result)) [
        | inl no_text ↦ rw no_text h
        | inr (uid, e) ↦ rw e (insert-Sound running uid cmd (command, rest, words, creates) h)
      ])
      | inr other ↦ rw other (elim (Bool-cases (is_destroy_or_revoke_cmd command)) [
        | inl destroys ↦ rw destroys (delete-Sound running arg h)
        | inr nothing ↦ rw nothing h
      ])
    ]

module _ (env : Blade) where
  settle-Sound :
      (ch : ChaosbladeHandler) (cmd command : String) (rest : List String) (response : Response)
      → fields cmd ≡ command ∷ rest
      → Sound ch.running
      → Sound (settle env ch cmd command rest response).0.running
  settle-Sound ch cmd command [] response words h = unfold settle in h
  settle-Sound ch cmd command (arg ∷ rest) response words h =
      rw (settle-running env ch cmd command arg rest response)
        (after_command-Sound ch.running cmd command arg (arg ∷ rest) response words h)

  waited-Sound :
      (ticks : ℕ) (ch : ChaosbladeHandler) (cmd command uid : String)
      → Sound ch.running
      → Sound (wait_if_k8s env ticks ch cmd command uid).running
  waited-Sound ticks ch cmd command uid h =
      rw (wait_if_k8s-running env ticks ch cmd command uid).0 h

  finish-cases :
      (ticks : ℕ) (ch : ChaosbladeHandler) (cmd command : String) (rest : List String)
      (reply : Reply)
      → (uid : String) × (let waited = wait_if_k8s env ticks ch cmd command uid in
          ((finish env ticks ch cmd command rest reply).0 ≡ waited)
          ⊎ ((finish env ticks ch cmd command rest reply).0
              ≡ (settle env waited cmd command rest (parse_result env reply.result)).0))
  unfolding finish
  finish-cases ticks ch cmd command rest reply =
      let response = parse_result env reply.result in
      elim (Bool-cases reply.ok) [
        | inl fine ↦ elim (Bool-cases response.success) [
          | inl succeeds ↦ (extract_uid_from_response env response reply.result, inr (ground arith))
          | inr fails ↦ (extract_uid_from_response env response reply.result, inl (ground arith))
        ]
        | inr bad ↦ elim (Option-cases (env.decode_response reply.result)) [
          | inl undecoded ↦ (extract_uid_from_raw_result env reply.result, inl (ground arith))
          | inr (given, decoded) ↦
              (extract_uid_from_response env given reply.result, inl (ground arith))
        ]
      ]

  finish-Sound :
      (ticks : ℕ) (ch : ChaosbladeHandler) (cmd command : String) (rest : List String)
      (reply : Reply)
      → fields cmd ≡ command ∷ rest
      → Sound ch.running
      → Sound (finish env ticks ch cmd command rest reply).0.running
  finish-Sound ticks ch cmd command rest reply words h =
      let (uid, cases) = finish-cases ticks ch cmd command rest reply in
      let waited = wait_if_k8s env ticks ch cmd command uid in
      elim cases [
        | inl e ↦ rw e (waited-Sound ticks ch cmd command uid h)
        | inr e ↦ rw e (
            settle-Sound waited cmd command rest (parse_result env reply.result) words
              (waited-Sound ticks ch cmd command uid h))
      ]

  exec-cases :
      (ticks : ℕ) (ch : ChaosbladeHandler) (cmd : String)
      → ((exec env ticks ch cmd).0 ≡ ch)
        ⊎ ((command : String) × (rest : List String) × (fields cmd ≡ command ∷ rest)
            × ((exec env ticks ch cmd).0
                ≡ (finish env ticks
                    (record ch { calls = cmd ∷ ch.calls })
                    cmd
                    command
                    rest
                    (env.blade ch.calls cmd)).0))
  unfolding exec exec_script
  exec-cases ticks ch cmd = elim (List-cases (fields cmd)) [
    | inl blank ↦ inl (ground arith)
    | inr (command, rest, words) ↦ elim (Bool-cases env.bin_exists) [
      | inl exists ↦ inr (command, rest, words, ground arith)
      | inr missing ↦ inl (ground arith)
    ]
  ]

  exec-Sound :
      (ticks : ℕ) (ch : ChaosbladeHandler) (cmd : String)
      → Sound ch.running
      → Sound (exec env ticks ch cmd).0.running
  exec-Sound ticks ch cmd h = elim (exec-cases ticks ch cmd) [
    | inl e ↦ rw e h
    | inr (command, rest, words, e) ↦ rw e (
        finish-Sound ticks (record ch { calls = cmd ∷ ch.calls }) cmd command rest
          (env.blade ch.calls cmd) words h)
  ]

-- The handler's life: it is made, and then carries out commands and runs the goroutines, in any order.
pub data Reachable (env : Blade) (reporter : Reporter) (ticks : ℕ)
    : ChaosbladeHandler → Type 0 where
  made : Reachable env reporter ticks new_chaosblade_handler
  commanded :
      (ch : ChaosbladeHandler) (request : Request)
      → Reachable env reporter ticks ch
      → Reachable env reporter ticks (handle env ticks ch request).0
  ran :
      (ch : ChaosbladeHandler) (sent : Sent) (task : Task)
      → Reachable env reporter ticks ch
      → Reachable env reporter ticks (run_task env reporter ticks ch sent task).0.0

module _ (env : Blade) (reporter : Reporter) (ticks : ℕ) where
  handle-Sound :
      (ch : ChaosbladeHandler) (request : Request)
      → Sound ch.running
      → Sound (handle env ticks ch request).0.running
  unfolding handle
  handle-Sound ch request h = elim (Bool-cases (str_eq (get request.params "cmd") "")) [
    | inl blank ↦ rw blank h
    | inr given ↦ rw given (exec-Sound env ticks ch (get request.params "cmd") h)
  ]

  after_task-Sound :
      (running : Dict String) (task : Task) (checked : Option (String × String))
      → Sound running
      → Sound (after_task running task checked)
  after_task-Sound running (java_install uid) none h = h
  after_task-Sound running (java_install uid) (some (status, error)) h =
      elim (Bool-cases (equal_fold status "Error")) [
        | inl bad ↦ rw bad (delete-Sound running uid h)
        | inr fine ↦ rw fine h
      ]
  after_task-Sound running (java_uninstall uid) checked h = h
  after_task-Sound running (async_create uid) checked h = h

  run_task-Sound :
      (ch : ChaosbladeHandler) (sent : Sent) (task : Task)
      → Sound ch.running
      → Sound (run_task env reporter ticks ch sent task).0.0.running
  run_task-Sound ch sent task h =
      rw (run_task-running env reporter ticks ch sent task)
        (after_task-Sound ch.running task (timing_check_status env ticks ch (uid_of task)).1 h)

-- In whatever state the handler's life leads to, no uid stands twice among the running experiments,
-- and each stands with a command line that creates or prepares.
pub Reachable-Sound :
    (env : Blade) (reporter : Reporter) (ticks : ℕ) (ch : ChaosbladeHandler)
    → Reachable env reporter ticks ch
    → Sound ch.running
Reachable-Sound env reporter ticks ch made =
    unfold new_chaosblade_handler lookup in (tt, λ uid cmd e. cc)
Reachable-Sound env reporter ticks ch (commanded before request r) =
    handle-Sound env reporter ticks before request (Reachable-Sound env reporter ticks before r)
Reachable-Sound env reporter ticks ch (ran before sent task r) =
    run_task-Sound env reporter ticks before sent task (Reachable-Sound env reporter ticks before r)
