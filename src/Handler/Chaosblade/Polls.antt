-- ===== src/Handler/Chaosblade/Polls.antt =====
-- How often the two loops of web/handler/chaosblade.go ask blade, and what the goroutines leave of the
-- running experiments.
use chaosblade_box_agent.Prelude.{
  leb, str_eq, eq_iff, ℕ, zero, suc, ◌+◌, ◌≤◌, ◌<◌, ◌≡◌, ◌≢◌, refl, ap, ◌∙◌, ◌⊎◌, inl, inr, String,
  true, false, Option, none, some, arith, length, if◌then◌else◌, Option-cases, Bool-cases,
}
use chaosblade_box_agent.Prelude.Dict.{Dict, delete, delete_absent}
use chaosblade_box_agent.Prelude.Text.{equal_fold}
use chaosblade_box_agent.Transport.Client.{Sent}
use chaosblade_box_agent.Handler.Chaosblade.{
  Blade, ChaosbladeHandler, Task, java_install, java_uninstall, async_create, Preparation, Queried,
  found, failed, panicked, query_preparation_status,
}
use chaosblade_box_agent.Handler.Chaosblade.Exec.{delete_callback}
use chaosblade_box_agent.Handler.Chaosblade.Wait.{
  wait_tick, wait_for_k8s_status, timing_check, timing_check_status,
}
use chaosblade_box_agent.Handler.Chaosblade.Tasks.{
  Reporter, run_task, check_and_report_java_agent_status,
}

Queried-cases :
    (q : Queried) → ((p : Preparation) × (q ≡ found p)) ⊎ ((q ≡ failed) ⊎ (q ≡ panicked))
Queried-cases (found p) = inl (p, refl)
Queried-cases failed = inr (inl refl)
Queried-cases panicked = inr (inr refl)

-- the induction's form of `Polled`
abbrev Polls : ℕ → ChaosbladeHandler → ChaosbladeHandler × Option (String × String) → Type 0
Polls ticks ch (ch', checked) =
    (ch'.running ≡ ch.running)
    × (length ch'.calls ≤ ticks + length ch.calls)
    × ((status : String) (error : String)
        → checked ≡ some (status, error)
        → length ch'.calls < ticks + length ch.calls
        → equal_fold status "Created" ≡ false)
    × ((status : String) (error : String)
        → checked ≡ some (status, error)
        → error ≢ ""
        → equal_fold status "Error" ≡ true)

Polls-later :
    (ticks : ℕ) (ch ch' : ChaosbladeHandler) (r : ChaosbladeHandler × Option (String × String))
    → (length ch'.calls ≡ suc (length ch.calls)) × (ch'.running ≡ ch.running)
    → Polls ticks ch' r
    → Polls (suc ticks) ch r
Polls-later ticks ch ch' r (asked, same) (running, bounded, early, errors) =
    (running ∙ same, omega arith, λ status error e less. early status error e (omega arith), errors)

module _ (env : Blade) where
  query_asks :
      (ch : ChaosbladeHandler) (uid : String)
      → (length (query_preparation_status env ch uid).0.calls ≡ suc (length ch.calls))
        × ((query_preparation_status env ch uid).0.running ≡ ch.running)
  unfolding query_preparation_status
  query_asks ch uid = ground arith

  timing_check_step :
      (ticks : ℕ) (ch : ChaosbladeHandler) (uid status : String)
      → let (ch', queried) = query_preparation_status env ch uid in
        ((queried ≡ failed
            → timing_check env (suc ticks) ch uid status ≡ timing_check env ticks ch' uid status)
          × (queried ≡ panicked → timing_check env (suc ticks) ch uid status ≡ (ch', none))
          × ((p : Preparation)
              → queried ≡ found p
              → (equal_fold p.status "Created" ≡ true
                  → timing_check env (suc ticks) ch uid status
                    ≡ timing_check env ticks ch' uid p.status)
                × (equal_fold p.status "Created" ≡ false
                    → equal_fold p.status "Error" ≡ true
                    → timing_check env (suc ticks) ch uid status ≡ (ch', some (p.status, p.error)))
                × (equal_fold p.status "Created" ≡ false
                    → equal_fold p.status "Error" ≡ false
                    → timing_check env (suc ticks) ch uid status ≡ (ch', some (p.status, "")))))
  unfolding timing_check
  timing_check_step ticks ch uid status =
      (ground arith, ground arith, λ p e. (ground arith, ground arith, ground arith))

  timing_check-Polls :
      (ticks : ℕ) (ch : ChaosbladeHandler) (uid status : String)
      → Polls ticks ch (timing_check env ticks ch uid status)
  unfolding timing_check
  timing_check-Polls zero ch uid status =
      (refl, omega arith, λ s e h less. absurd (omega arith), ground arith)
  timing_check-Polls (suc ticks) ch uid status =
      let ch' = (query_preparation_status env ch uid).0 in
      let asks = query_asks ch uid in
      let step = timing_check_step ticks ch uid status in
      elim (Queried-cases (query_preparation_status env ch uid).1) [
        | inl (p, e) ↦ elim (Bool-cases (equal_fold p.status "Created")) [
          | inl created ↦ rw ((step.2 p e).0 created) (
              Polls-later ticks ch ch' (timing_check env ticks ch' uid p.status) asks
                (timing_check-Polls ticks ch' uid p.status))
          | inr settled ↦ elim (Bool-cases (equal_fold p.status "Error")) [
            | inl bad ↦
                rw ((step.2 p e).1 settled bad)
                  (asks.1, omega (arith, asks.0), ground arith, ground arith)
            | inr fine ↦
                rw ((step.2 p e).2 settled fine)
                  (asks.1, omega (arith, asks.0), ground arith, ground arith)
          ]
        ]
        | inr (inl e) ↦ rw (step.0 e) (
            Polls-later ticks ch ch' (timing_check env ticks ch' uid status) asks
              (timing_check-Polls ticks ch' uid status))
        | inr (inr e) ↦ rw (step.1 e) (asks.1, omega (arith, asks.0), ground arith, ground arith)
      ]

  wait_tick_asks :
      (ch : ChaosbladeHandler) (uid : String)
      → let (ch', returns) = wait_tick env ch uid in
        (length ch'.calls ≤ 2 + length ch.calls)
        × (returns ≡ false → length ch'.calls ≡ suc (length ch.calls))
  unfolding wait_tick
  wait_tick_asks ch uid = ground arith

-- the experiments behind a goroutine: a Java agent whose installation failed is no longer one
abbrev pub after_task : Dict String → Task → Option (String × String) → Dict String
after_task running (java_install uid) (some (status, error)) =
    if equal_fold status "Error" then delete running uid else running
after_task running task checked = running

abbrev pub uid_of : Task → String
uid_of (java_install uid) = uid
uid_of (java_uninstall uid) = uid
uid_of (async_create uid) = uid

delete_callback-running :
    (ch : ChaosbladeHandler) (uid status : String)
    → (delete_callback ch uid status).running
      ≡ (if equal_fold status "Error" then delete ch.running uid else ch.running)
unfolding delete_callback
delete_callback-running ch uid status = ground (arith, delete_absent ch.running uid)

java_install-running :
    (env : Blade) (reporter : Reporter) (ticks : ℕ) (ch : ChaosbladeHandler) (sent : Sent)
    (uid : String)
    → (check_and_report_java_agent_status env reporter ticks ch sent uid).0.0.running
      ≡ after_task
          (timing_check_status env ticks ch uid).0.running
          (java_install uid)
          (timing_check_status env ticks ch uid).1
unfolding check_and_report_java_agent_status
java_install-running env reporter ticks ch sent uid =
    elim (Option-cases (timing_check_status env ticks ch uid).1) [
      | inl none' ↦ ground arith
      | inr (checked, e) ↦
          ground
            (arith, delete_callback-running (timing_check_status env ticks ch uid).0 uid checked.0)
    ]

-- A goroutine of the handler takes one experiment at most out of the running ones: that of a Java
-- agent whose installation ended with the status "Error".
pub run_task-running :
    (env : Blade) (reporter : Reporter) (ticks : ℕ) (ch : ChaosbladeHandler) (sent : Sent)
    (task : Task)
    → (run_task env reporter ticks ch sent task).0.0.running
      ≡ after_task ch.running task (timing_check_status env ticks ch (uid_of task)).1
unfolding run_task timing_check_status
run_task-running env reporter ticks ch sent (java_install uid) =
    java_install-running env reporter ticks ch sent uid
    ∙ ap
        (λ (m : Dict String).
          after_task m (java_install uid) (timing_check_status env ticks ch uid).1)
        (timing_check-Polls env ticks ch uid "Unknown").0
run_task-running env reporter ticks ch sent (java_uninstall uid) =
    ground (arith, (timing_check-Polls env ticks ch uid "Unknown").0)
run_task-running env reporter ticks ch sent (async_create uid) =
    ground (arith, (timing_check-Polls env ticks ch uid "Unknown").0)

-- What the loop returns: the running experiments are as they were, and the queries are within the
-- ticks; a status is not "Created" or the ticks are used up; there is no error, or the status is
-- "Error".
abbrev pub Polled : ℕ → ChaosbladeHandler → ChaosbladeHandler × Option (String × String) → Type 0
Polled ticks ch (ch', none) =
    (ch'.running ≡ ch.running) × (length ch'.calls ≤ ticks + length ch.calls)
Polled ticks ch (ch', some (status, error)) =
    (ch'.running ≡ ch.running)
    × (length ch'.calls ≤ ticks + length ch.calls)
    × ((equal_fold status "Created" ≡ false) ⊎ (length ch'.calls ≡ ticks + length ch.calls))
    × ((error ≡ "") ⊎ (equal_fold status "Error" ≡ true))

Polls-Polled :
    (ticks : ℕ) (ch : ChaosbladeHandler) (r : ChaosbladeHandler × Option (String × String))
    → Polls ticks ch r
    → Polled ticks ch r
Polls-Polled ticks ch (ch', none) (running, bounded, early, errors) = (running, bounded)
Polls-Polled ticks ch (ch', some (status, error)) (running, bounded, early, errors) = (
  running,
  bounded,
  elim (Bool-cases (leb (ticks + length ch.calls) (length ch'.calls))) [
    | inl late ↦ inr (ground arith)
    | inr soon ↦ inl (early status error refl (ground arith))
  ],
  elim (Bool-cases (str_eq error "")) [
    | inl blank ↦ inl ((eq_iff error "").0 blank)
    | inr shown ↦ inr (errors status error refl (ground (arith, eq_iff error "")))
  ],
)

-- The check of a Java agent or of an asynchronous experiment leaves the running experiments as they
-- were and asks blade at most once a tick. It returns the status "Created" only when its time is over,
-- and an error only with the status "Error".
pub timing_check_status-Polled :
    (env : Blade) (ticks : ℕ) (ch : ChaosbladeHandler) (uid : String)
    → Polled ticks ch (timing_check_status env ticks ch uid)
unfolding timing_check_status
timing_check_status-Polled env ticks ch uid =
    Polls-Polled ticks ch (timing_check env ticks ch uid "Unknown")
      (timing_check-Polls env ticks ch uid "Unknown")

-- Waiting for an experiment on Kubernetes asks blade at most once more than it has ticks.
wait_for_k8s_status_asks :
    (env : Blade) (ticks : ℕ) (ch : ChaosbladeHandler) (uid : String)
    → length (wait_for_k8s_status env ticks ch uid).calls ≤ suc ticks + length ch.calls
unfolding wait_for_k8s_status
wait_for_k8s_status_asks env zero ch uid = omega arith
wait_for_k8s_status_asks env (suc ticks) ch uid = ground (
  arith,
  wait_tick_asks env ch uid,
  wait_for_k8s_status_asks env ticks (wait_tick env ch uid).0 uid,
)
