-- ===== src/Conn/Metric.antt =====
-- metricreport/metric.go and conn/metric/metric.go: the table of metrics and its lock. A collector is
-- its name, a running ticker a mark.
use chaosblade_box_agent.Prelude.{
  ℕ, ◌+◌, ◌-◌, ◌≡◌, ◌≢◌, ◌⊎◌, inl, inr, arith, String, Bool, true, false, Option, none, some, [],
  ◌∷◌, if◌then◌else◌, ◌==◌, List-cases, Bool-cases,
}
use chaosblade_box_agent.Prelude.Dict.{Dict, lookup, insert}

-- `ReportMetricConfig`: the collector, none for nil, and the ticker, none for nil and else whether it
-- runs
pub record ReportMetricConfig : Type 0 where
  pub collector : Option String
  pub enable : Bool
  pub period : ℕ
  pub ticker : Option Bool

-- `sync.RWMutex`: the read locks that are held, whether the write lock is, and the calls of `Lock` that
-- wait for it
pub record RwMutex : Type 0 where
  pub readers : ℕ
  pub writer : Bool
  pub waiting : ℕ

-- the table and its lock
pub record ReportMetricConfigMap : Type 0 where
  pub mutex : RwMutex
  pub report_metric_config : Dict ReportMetricConfig

-- a call that returns, or one that waits for a lock, with what it leaves at that point
pub data Locked : Type 0 where
  done : ReportMetricConfigMap → Locked
  blocked : ReportMetricConfigMap → Locked

-- `RLock`, `Lock` and their counterparts, none where the call has to wait. A call of `Lock` that waits
-- keeps new readers out.
unfoldable pub r_lock : RwMutex → Option RwMutex
r_lock m =
    if m.writer
    then none
    else if m.waiting == 0
    then some (record m { readers = m.readers + 1 })
    else none

unfoldable pub r_unlock : RwMutex → RwMutex
r_unlock m = record m { readers = m.readers - 1 }

unfoldable pub lock : RwMutex → Option RwMutex
lock m =
    if m.writer then none else if m.readers == 0 then some (record m { writer = true }) else none

unfoldable pub unlock : RwMutex → RwMutex
unlock m = record m { writer = false }

-- behind a call of `Lock` that waits
abbrev pub wait_for_write : RwMutex → RwMutex
wait_for_write m = record m { waiting = m.waiting + 1 }

-- a method behind `Lock` and with a deferred `Unlock`
abbrev guarded :
    (Dict ReportMetricConfig → Dict ReportMetricConfig) → ReportMetricConfigMap → Locked
guarded change rmc = elim (lock rmc.mutex) [
  | none ↦ blocked (record rmc { mutex = wait_for_write rmc.mutex })
  | some m ↦
      done (record { mutex = unlock m; report_metric_config = change rmc.report_metric_config })
]

-- `MetricRegistry`
unfoldable pub metric_registry : ReportMetricConfigMap → String → ReportMetricConfig → Locked
unfolding insert lock unlock
metric_registry rmc metric_name config =
    guarded
      (λ configs. elim config.collector [
        | none ↦ configs
        | some c ↦ insert configs metric_name config
      ])
      rmc

-- what `CloseEnable` does to the table
unfoldable pub close_config : Dict ReportMetricConfig → String → Dict ReportMetricConfig
unfolding lookup insert
close_config configs metric_name = elim (lookup configs metric_name) [
  | none ↦ configs
  | some config ↦ elim config.ticker [
    | none ↦ configs
    | some running ↦
        insert configs metric_name (record config { enable = false; ticker = some false })
  ]
]

-- `CloseEnable`
unfoldable pub close_enable : ReportMetricConfigMap → String → Locked
unfolding close_config lock unlock
close_enable rmc metric_name = guarded (λ configs. close_config configs metric_name) rmc

-- the loop of `ClientMetricHandler.Stop` over the names
unfoldable pub close_all : ReportMetricConfigMap → Dict ReportMetricConfig → Locked
unfolding close_enable
close_all rmc [] = done rmc
close_all rmc ((metric_name, config) ∷ names) = elim (close_enable rmc metric_name) [
  | blocked rmc' ↦ blocked rmc'
  | done rmc' ↦ close_all rmc' names
]

-- `ClientMetricHandler.Stop`
unfoldable pub stop : ReportMetricConfigMap → Locked
unfolding close_all r_lock r_unlock
stop rmc = elim (r_lock rmc.mutex) [
  | none ↦ blocked rmc
  | some m ↦
      let rmc = record rmc { mutex = m } in
      elim (close_all rmc rmc.report_metric_config) [
        | blocked rmc' ↦ blocked rmc'
        | done rmc' ↦ done (record rmc' { mutex = r_unlock rmc'.mutex })
      ]
]

-- the loop of `ClientMetricHandler.Start`: an enabled metric gets a running ticker
unfoldable pub start_tickers : Dict ReportMetricConfig → Dict ReportMetricConfig
start_tickers [] = []
start_tickers ((metric_name, config) ∷ configs) =
    let rest = start_tickers configs in
    if config.enable
    then (metric_name, record config { enable = true; ticker = some true }) ∷ rest
    else (metric_name, config) ∷ rest

-- `ClientMetricHandler.Start`
unfoldable pub start : ReportMetricConfigMap → Locked
unfolding start_tickers r_lock r_unlock
start rmc = elim (r_lock rmc.mutex) [
  | none ↦ blocked rmc
  | some m ↦
      done (record {
        mutex = r_unlock m;
        report_metric_config = start_tickers rmc.report_metric_config;
      })
]

close_enable_read_locked :
    (rmc : ReportMetricConfigMap) (metric_name : String)
    → rmc.mutex.readers ≢ 0
    → close_enable rmc metric_name ≡ blocked (record rmc { mutex = wait_for_write rmc.mutex })
unfolding close_enable
close_enable_read_locked rmc metric_name held = ground arith

-- the table behind a `Stop` that has locked it for reading and waits to lock it for writing
abbrev pub self_blocked : ReportMetricConfigMap → ReportMetricConfigMap
self_blocked rmc = record rmc {
  mutex = record rmc.mutex { readers = rmc.mutex.readers + 1; waiting = 1 };
}

stop_with_metric :
    (rmc : ReportMetricConfigMap) (metric : String × ReportMetricConfig)
    (rest : Dict ReportMetricConfig)
    → rmc.report_metric_config ≡ metric ∷ rest
    → rmc.mutex.writer ≡ false
    → rmc.mutex.waiting ≡ 0
    → stop rmc ≡ blocked (self_blocked rmc)
unfolding stop close_all
stop_with_metric rmc metric rest metrics free calm =
    let held : ReportMetricConfigMap = record rmc {
      mutex = record rmc.mutex { readers = rmc.mutex.readers + 1 };
    } in
    ground (arith, close_enable_read_locked held metric.0)

-- Where a writer holds the lock or waits for it, `Stop` waits for the read lock, with nothing changed.
-- Else `Stop` with a metric registered comes to wait for the write lock while it holds a read lock
-- itself, and from then on keeps every other reader out; without a metric it returns and changes
-- nothing.
pub stop_blocks :
    (rmc : ReportMetricConfigMap)
    → (((rmc.mutex.writer ≡ true) ⊎ (rmc.mutex.waiting ≢ 0)) × (stop rmc ≡ blocked rmc))
      ⊎ ((rmc.mutex.writer ≡ false)
          × (rmc.mutex.waiting ≡ 0)
          × (((rmc.report_metric_config ≢ [])
                × (stop rmc ≡ blocked (self_blocked rmc))
                × (r_lock (self_blocked rmc).mutex ≡ none))
              ⊎ ((rmc.report_metric_config ≡ []) × (stop rmc ≡ done rmc))))
unfolding stop close_all
stop_blocks rmc = elim (Bool-cases rmc.mutex.writer) [
  | inl taken ↦ inl (inl taken, ground arith)
  | inr free ↦ elim (Bool-cases (rmc.mutex.waiting == 0)) [
    | inr waited ↦ inl (inr (ground arith), ground arith)
    | inl calm ↦
        let none_waits : rmc.mutex.waiting ≡ 0 = ground arith in
        inr (
          free,
          none_waits,
          elim (List-cases rmc.report_metric_config) [
            | inl nothing ↦ inr (nothing, ground arith)
            | inr (metric, rest, metrics) ↦ inl (
              ground arith,
              stop_with_metric rmc metric rest metrics free none_waits,
              ground arith,
            )
          ],
        )
  ]
]
