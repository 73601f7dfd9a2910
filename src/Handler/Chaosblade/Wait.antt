-- ===== src/Handler/Chaosblade/Wait.antt =====
-- The two loops of web/handler/chaosblade.go that ask blade about an experiment. The timer and the
-- deadline are a number: how many ticks the loop takes before it sees that the time is over.
use Prim.Native.String.{◌++◌ as str_append}
use chaosblade_box_agent.Prelude.{
  ℕ, zero, suc, String, Bool, true, false, Option, none, some, if◌then◌else◌,
}
use chaosblade_box_agent.Prelude.Text.{equal_fold}
use chaosblade_box_agent.Transport.Json.{
  Json, null, bool, num, str, arr, obj, nil, cons, Fields, lookup_field, as_slice, as_bool,
}
use chaosblade_box_agent.Handler.Chaosblade.{
  Blade, ChaosbladeHandler, found, failed, panicked, exec_script, parse_result,
  query_preparation_status,
}

-- `statuses, ok := m["statuses"].([]interface{}); ok && len(statuses) > 0`
unfoldable pub has_statuses : Fields → Bool
unfolding lookup_field
has_statuses fs = elim (lookup_field fs "statuses") [
  | none ↦ false
  | some v ↦ elim (as_slice v) [
    | none ↦ false
    | some vs ↦ elim vs [ nil ↦ false | cons x rest ↦ true ]
  ]
]

-- `success, ok := m["success"].(bool); ok && success`
unfoldable pub has_success : Fields → Bool
unfolding lookup_field
has_success fs = elim (lookup_field fs "success") [
  | none ↦ false
  | some v ↦ elim (as_bool v) [ none ↦ false | some b ↦ b ]
]

-- what one answer means: wait on, return, or query once more and return
pub data Readiness : Type 0 where
  not_ready ready accepted : Readiness

module _ (env : Blade) where
  abbrev pub query_cmd : String → String
  query_cmd uid = str_append "query k8s create " uid

  unfoldable pub readiness : Json → Readiness
  unfolding has_statuses has_success
  readiness (obj m) =
      if has_statuses m then ready else if has_success m then accepted else not_ready
  readiness (str s) = elim (env.decode_map s) [
    | none ↦ not_ready
    | some m ↦ if has_statuses m then ready else if has_success m then ready else not_ready
  ]
  readiness (arr (cons v vs)) = ready
  readiness (arr nil) = not_ready
  readiness null = not_ready
  readiness (bool b) = not_ready
  readiness (num n) = not_ready

  -- One tick of `waitForK8sStatus`; true when it returns. The second query changes nothing but what
  -- is logged.
  unfoldable pub wait_tick : ChaosbladeHandler → String → ChaosbladeHandler × Bool
  unfolding exec_script parse_result readiness
  wait_tick ch uid =
      let (ch', reply) = exec_script env ch (query_cmd uid) in
      let response = parse_result env reply.result in
      if reply.ok
      then (if response.success
          then elim (readiness response.result) [
            | not_ready ↦ (ch', false)
            | ready ↦ (ch', true)
            | accepted ↦ ((exec_script env ch' (query_cmd uid)).0, true)
          ]
          else (ch', false))
      else (ch', false)

  -- `waitForK8sStatus`
  unfoldable pub wait_for_k8s_status : ℕ → ChaosbladeHandler → String → ChaosbladeHandler
  wait_for_k8s_status zero ch uid = ch
  wait_for_k8s_status (suc ticks) ch uid =
      let (ch', returns) = wait_tick ch uid in
      let waited = wait_for_k8s_status ticks ch' uid in if returns then ch' else waited

  -- The loop of `timingCheckStatus` behind the status seen last; none when a type assertion of the
  -- query panics.
  unfoldable pub timing_check :
      ℕ → ChaosbladeHandler → String → String → ChaosbladeHandler × Option (String × String)
  timing_check zero ch uid status = (ch, some (status, ""))
  timing_check (suc ticks) ch uid status =
      let (ch', queried) = query_preparation_status env ch uid in
      elim queried [
        | failed ↦ timing_check ticks ch' uid status
        | panicked ↦ (ch', none)
        | found record' ↦
            let waited = timing_check ticks ch' uid record'.status in
            if equal_fold record'.status "Created"
            then waited
            else if equal_fold record'.status "Error"
            then (ch', some (record'.status, record'.error))
            else (ch', some (record'.status, ""))
      ]

  -- `timingCheckStatus`
  unfoldable pub timing_check_status :
      ℕ → ChaosbladeHandler → String → ChaosbladeHandler × Option (String × String)
  timing_check_status ticks ch uid = timing_check ticks ch uid "Unknown"
