-- ===== src/Collector/Pod/State.antt =====
-- collector/kubernetes/pod.go and kubernetes.go: the state of a pod and the sum of its restarts.
use Prim.Native.String.{◌++◌ as str_append}
use chaosblade_box_agent.Prelude.{
  ℕ, suc, ◌+◌, ◌-◌, ◌%◌, ◌^◌, String, Bool, true, false, not, ◌&&◌, Option, none, some, List, [],
  ◌∷◌, reverse, str_eq, if◌then◌else◌, ◌==◌, leb,
}
use chaosblade_box_agent.Prelude.Strconv.{format_int}

-- `ContainerStateTerminated`; the exit code and the signal are an int32 each, modulo 2^32
pub record Terminated : Type 0 where
  pub exit_code : ℕ
  pub signal : ℕ
  pub reason : String

-- what is read of a `ContainerStatus`: the reason of a waiting state, a terminated one, and whether
-- there is a running one
pub record ContainerStatus : Type 0 where
  pub waiting : Option String
  pub terminated : Option Terminated
  pub running : Bool
  pub ready : Bool
  pub restart_count : ℕ

-- what is read of a pod's status, with the number of init containers that its spec names
pub record PodStatus : Type 0 where
  pub phase : String
  pub reason : String
  pub init_container_statuses : List ContainerStatus
  pub init_containers : ℕ
  pub container_statuses : List ContainerStatus
  pub deletion_timestamp : Bool

-- `%d` of an int32
abbrev pub format_int32 : ℕ → String
format_int32 n = if leb (2 ^ 31) n then str_append "-" (format_int (2 ^ 32 - n)) else format_int n

-- the reason of a terminated container
unfoldable pub terminated_reason : Terminated → String
terminated_reason t =
    if str_eq t.reason ""
    then (if not (t.signal == 0)
        then str_append "Signal:" (format_int32 t.signal)
        else str_append "ExitCode:" (format_int32 t.exit_code))
    else t.reason

-- what the loop over the init containers stops at, if anywhere, from the i-th on
unfoldable pub init_reason : ℕ → ℕ → List ContainerStatus → Option String
unfolding terminated_reason
init_reason total i [] = none
init_reason total i (container ∷ rest) =
    let later = init_reason total (suc i) rest in
    let progress =
      str_append "Init:" (str_append (format_int i) (str_append "/" (format_int total))) in
    elim container.terminated [
      | some t ↦ if t.exit_code == 0 then later else some (str_append "Init:" (terminated_reason t))
      | none ↦ elim container.waiting [
        | none ↦ some progress
        | some why ↦
            if not (str_eq why "") && not (str_eq why "PodInitializing")
            then some (str_append "Init:" why)
            else some progress
      ]
    ]

-- one container of the loop: the reason, and whether one is running and ready
unfoldable pub container_reason : String × Bool → ContainerStatus → String × Bool
unfolding terminated_reason
container_reason (reason, has_running) container =
    let stopped : String × Bool = elim container.terminated [
      | some t ↦ (terminated_reason t, has_running)
      | none ↦ (reason, if container.ready && container.running then true else has_running)
    ] in
    elim container.waiting [
      | none ↦ stopped
      | some why ↦ if str_eq why "" then stopped else (why, has_running)
    ]

unfoldable pub containers_reason : String × Bool → List ContainerStatus → String × Bool
unfolding container_reason
containers_reason state [] = state
containers_reason state (container ∷ rest) =
    containers_reason (container_reason state container) rest

-- the reason before the deletion is looked at
unfoldable pub live_reason : PodStatus → String
unfolding init_reason containers_reason
live_reason pod =
    let reason = if str_eq pod.reason "" then pod.phase else pod.reason in
    elim (init_reason pod.init_containers 0 pod.init_container_statuses) [
      | some why ↦ why
      | none ↦
          let (reason, has_running) =
            containers_reason (reason, false) (reverse pod.container_statuses) in
          if str_eq reason "Completed" && has_running then "Running" else reason
    ]

-- `getPodState`
unfoldable pub get_pod_state : PodStatus → String
unfolding live_reason
get_pod_state pod =
    if pod.deletion_timestamp && str_eq pod.reason "NodeLost"
    then "Unknown"
    else if pod.deletion_timestamp
    then "Terminating"
    else live_reason pod

-- `getPodRestartCount`: an int32 sum
abbrev pub sum_restarts : ℕ → List ContainerStatus → ℕ
sum_restarts count [] = count
sum_restarts count (c ∷ rest) = sum_restarts ((count + c.restart_count) % 2 ^ 32) rest

unfoldable pub get_pod_restart_count : PodStatus → ℕ
get_pod_restart_count pod = sum_restarts 0 pod.container_statuses
