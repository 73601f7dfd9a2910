-- ===== src/Handler/Litmus/Creates.antt =====
-- What a creation that is answered with a success has done.
use chaosblade_box_agent.Prelude.{
  ◌≡◌, refl, sym, subst, ◌⊎◌, inl, inr, arith, String, true, false, Option, none, some, List, [],
  ◌∷◌, str_eq, Outcome, returned, panic, Bool-cases, Outcome-cases, Option-cases,
}
use chaosblade_box_agent.Prelude.Dict.{Dict}
use chaosblade_box_agent.Transport.Response.{Response, return_fail, return_success, server_error}
use chaosblade_box_agent.Handler.Litmus.Cluster.{
  api_message, Engine, Call, create_engine, Surroundings, World, call,
}
use chaosblade_box_agent.Handler.Litmus.Rbac.{prepare_litmus_rbac, prepare_litmus_experiment}
use chaosblade_box_agent.Handler.Litmus.Rbac.Binds.{RoleBound, Bound, prepare_litmus_rbac-Bound}
use chaosblade_box_agent.Handler.Litmus.{Task, engine_of, finish_create, litmus_fail, create_exec}

abbrev pub Answer : Type 0
Answer = (World × List Task) × Outcome Response

-- the goroutine that follows an engine
abbrev pub task_of : Engine → Task
task_of engine = record {
  name = engine.name;
  namespace = engine.namespace;
  experiment_name = engine.experiment_name;
}

-- either the answer is a success, the last call created the engine, the two before it a role and its
-- binding, and one goroutine follows the engine; or it is a failure or a panic, and there is no
-- goroutine
abbrev pub Started : Surroundings → Engine → Answer → Type 0
Started s engine ((w, tasks), panic) = tasks ≡ []
Started s engine ((w, tasks), returned response) =
    ((response.success ≡ true)
      × (tasks ≡ task_of engine ∷ [])
      × (before : List Call) × (w.calls ≡ create_engine engine ∷ before)
      × (s.reply before (create_engine engine) ≡ none)
      × RoleBound s before)
    ⊎ ((response.success ≡ false) × (tasks ≡ []))

finish_create-Started :
    (s : Surroundings) (engine : Engine) (w : World)
    → RoleBound s w.calls
    → Started s engine (finish_create s engine w)
unfolding finish_create call return_success return_fail
finish_create-Started s engine w bound =
    let w1 = record w { calls = create_engine engine ∷ w.calls } in
    elim (Option-cases (s.reply w.calls (create_engine engine))) [
      | inr (err, refused) ↦
          let response = litmus_fail "litmus create enginer failed, err: " (api_message err) in
          let e : finish_create s engine w ≡ ((w1, []), returned response) = ground arith in
          subst (Started s engine) (sym e) (inr (refl, refl))
      | inl created ↦
          let e : finish_create s engine w ≡ ((w1, task_of engine ∷ []), returned return_success) =
            ground arith in
          subst (Started s engine) (sym e) (inl (refl, refl, w.calls, refl, created, bound))
    ]

Bound-by :
    (s : Surroundings) (r : World × Outcome (Option String))
    → Bound s r
    → r.1 ≡ returned none
    → RoleBound s r.0.calls
Bound-by s (w, returned none) h e = h
Bound-by s (w, returned (some err)) h e = cc
Bound-by s (w, panic) h e = cc

-- A creation: the answer is a success only where the last three calls created a role, bound it and
-- created the engine, where Kubernetes refused neither the role nor the engine and the binding at most
-- because it is there already; then, and only then, a goroutine follows the engine.
pub create_exec-Started :
    (s : Surroundings) (version experiment_type experiment_name namespace name : String)
    (app_info components : Dict String) (w : World)
    → Started s
        (engine_of name namespace experiment_name app_info components)
        (create_exec s version experiment_type experiment_name namespace name app_info components w)
unfolding create_exec return_fail
create_exec-Started s version experiment_type experiment_name namespace name app_info components w =
    let engine = engine_of name namespace experiment_name app_info components in
    let result =
      create_exec s version experiment_type experiment_name namespace name app_info components w in
    let prepared =
      prepare_litmus_experiment s version experiment_type experiment_name namespace w in
    let rbac = prepare_litmus_rbac s version experiment_type experiment_name namespace prepared.0 in
    let failed =
      λ (w : World) (what err : String) (e : result ≡ ((w, []), returned (litmus_fail what err))).
        subst (Started s engine) (sym e) (inr (refl, refl)) in
    elim (Bool-cases (str_eq version "")) [
      | inl blank ↦
          let e : result ≡ (
            (w, []),
            returned (
                return_fail server_error
                  ("litmus operator not installed, please install first" ∷ [])),
          ) =
            ground arith in
          subst (Started s engine) (sym e) (inr (refl, refl))
      | inr installed ↦ elim (Option-cases prepared.1) [
        | inr (err, fails) ↦
            failed prepared.0 "litmus prepare experiment failed, err: " err (ground arith)
        | inl made ↦ elim (Outcome-cases rbac.1) [
          | inr panics ↦
              let e : result ≡ ((rbac.0, []), panic) = ground arith in
              subst (Started s engine) (sym e) refl
          | inl (err, returns) ↦ elim (Option-cases err) [
            | inr (m, fails) ↦ failed rbac.0 "litmus prepare rbac failed, err: " m (ground arith)
            | inl good ↦
                let e : result ≡ finish_create s engine rbac.0 = ground arith in
                let bound =
                  Bound-by s rbac
                    (prepare_litmus_rbac-Bound s version experiment_type experiment_name namespace
                      prepared.0)
                    (ground arith) in
                subst (Started s engine) (sym e) (finish_create-Started s engine rbac.0 bound)
          ]
        ]
      ]
    ]
