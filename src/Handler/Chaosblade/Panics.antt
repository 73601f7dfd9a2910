-- ===== src/Handler/Chaosblade/Panics.antt =====
-- The commands at which `exec` of web/handler/chaosblade.go panics: `fields[1]` of a command of one
-- word, and `response.Result.(string)` of a result that is not a text.
use chaosblade_box_agent.Prelude.{
  panic, ℕ, ◌≡◌, ◌⊎◌, ◌↔◌, refl, inl, inr, String, true, false, none, List, [], ◌∷◌, arith,
  Bool-cases, Option-cases,
}
use chaosblade_box_agent.Prelude.Text.{fields}
use chaosblade_box_agent.Transport.Json.{as_string}
use chaosblade_box_agent.Transport.Response.{Response}
use chaosblade_box_agent.Handler.Commands.{is_create_or_prepare_cmd, is_revoke_operation}
use chaosblade_box_agent.Handler.Chaosblade.{
  Blade, Reply, ChaosbladeHandler, parse_result, extract_uid_from_response,
}
use chaosblade_box_agent.Handler.Chaosblade.Exec.{
  record_experiment, handle_cache_and_safe_point, wait_if_k8s, settle, drop_experiment, finish,
  exec,
}
use chaosblade_box_agent.Handler.Chaosblade.Running.{exec-words}

-- the commands whose answer cannot be taken over: those of one word, and those that create or prepare
-- and whose result is no text
abbrev pub Faulty : String → List String → Response → Type 0
Faulty command rest response =
    (rest ≡ []) ⊎ ((is_create_or_prepare_cmd command ≡ true) × (as_string response.result ≡ none))

settle_panics_iff :
    (env : Blade) (ch : ChaosbladeHandler) (cmd command : String) (rest : List String)
    (response : Response)
    → is_revoke_operation command ≡ false
    → ((settle env ch cmd command rest response).1 ≡ panic) ↔ Faulty command rest response
unfolding settle handle_cache_and_safe_point record_experiment drop_experiment
settle_panics_iff env ch cmd command [] response other = (λ e. inl refl, λ f. refl)
settle_panics_iff env ch cmd command (arg ∷ rest) response other =
    elim (Bool-cases (is_create_or_prepare_cmd command)) [
      | inl creates ↦ elim (Option-cases (as_string response.result)) [
        | inl no_text ↦ (λ e. inr (creates, no_text), λ f. ground arith)
        | inr (uid, text) ↦ (
          λ e. absurd (ground arith),
          λ f. elim f [ inl e ↦ absurd (ground arith) | inr (c, no_text) ↦ cc ],
        )
      ]
      | inr not_creates ↦ (
        λ e. absurd (ground arith),
        λ f. elim f [ inl e ↦ absurd (ground arith) | inr (c, no_text) ↦ cc ],
      )
    ]

finish_panics_iff :
    (env : Blade) (ticks : ℕ) (ch : ChaosbladeHandler) (cmd command : String) (rest : List String)
    (reply : Reply)
    → is_revoke_operation command ≡ false
    → ((finish env ticks ch cmd command rest reply).1 ≡ panic) ↔ (
        (reply.ok ≡ true)
        × ((parse_result env reply.result).success ≡ true)
        × Faulty command rest (parse_result env reply.result))
unfolding finish
finish_panics_iff env ticks ch cmd command rest reply other =
    let response = parse_result env reply.result in
    let uid = extract_uid_from_response env response reply.result in
    let settled =
      settle_panics_iff env (wait_if_k8s env ticks ch cmd command uid) cmd command rest response
        other in
    elim (Bool-cases reply.ok) [
      | inl fine ↦ elim (Bool-cases response.success) [
        | inl success ↦ (
          λ e. (fine, success, settled.0 (ground arith)),
          λ (fine', success', faulty). ground (arith, settled.1 faulty),
        )
        | inr fails ↦ (λ e. absurd (ground arith), λ (fine', success', faulty). cc)
      ]
      | inr bad ↦ elim (Option-cases (env.decode_response reply.result)) [
        | inl undecoded ↦ (λ e. absurd (ground arith), λ (fine', success', faulty). cc)
        | inr (given, decoded) ↦ (λ e. absurd (ground arith), λ (fine', success', faulty). cc)
      ]
    ]

-- A command whose verb is not that of a revocation makes `exec` panic exactly when the binary is there,
-- blade carries the command out with success, and the command has one word only or creates or prepares
-- and its result is no text.
pub exec_panics_iff :
    (env : Blade) (ticks : ℕ) (ch : ChaosbladeHandler) (cmd command : String) (rest : List String)
    → fields cmd ≡ command ∷ rest
    → is_revoke_operation command ≡ false
    → ((exec env ticks ch cmd).1 ≡ panic) ↔ (
        (env.bin_exists ≡ true)
        × ((env.blade ch.calls cmd).ok ≡ true)
        × ((parse_result env (env.blade ch.calls cmd).result).success ≡ true)
        × Faulty command rest (parse_result env (env.blade ch.calls cmd).result))
unfolding exec
exec_panics_iff env ticks ch cmd command rest words other =
    let ch' : ChaosbladeHandler = record ch { calls = cmd ∷ ch.calls } in
    let finished =
      finish_panics_iff env ticks ch' cmd command rest (env.blade ch.calls cmd) other in
    elim (Bool-cases env.bin_exists) [
      | inl exists ↦
          let runs = exec-words env ticks ch cmd command rest words exists in
          (
            λ e.
                let (fine, success, faulty) = finished.0 (ground (arith, runs)) in
                (exists, fine, success, faulty),
            λ (exists', fine, success, faulty).
                ground (arith, runs, finished.1 (fine, success, faulty)),
          )
      | inr missing ↦ (λ e. absurd (ground arith), λ (exists', fine, success, faulty). cc)
    ]
