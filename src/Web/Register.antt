-- ===== src/Web/Register.antt =====
-- web/api/api.go: the names under which the agent registers its handlers. The handlers are parameters;
-- a registration is that of the server in use.
use chaosblade_box_agent.Prelude.{◌≡◌, refl, ℕ, String, Option, none, some, List, [], ◌∷◌}
use chaosblade_box_agent.Prelude.Dict.{Dict, lookup, insert}
use chaosblade_box_agent.Web.Api.{register_handler}

-- the handlers that `API.Register` makes
pub record ApiHandlers {ℓ} (H : Type ℓ) : Type ℓ where
  pub chaosblade : H
  pub ping : H
  pub uninstall : H
  pub update_application : H
  pub litmuschaos : H
  pub install_litmus : H
  pub uninstall_litmus : H

module _ {ℓ} {H T : Type ℓ} (register : T → String → H → T × Option String) where
  -- one registration after another, up to the first error
  unfoldable pub register_in_turn : T → List (String × H) → T × Option String
  register_in_turn t [] = (t, none)
  register_in_turn t ((handler_name, handler) ∷ handlers) =
      let (t', err) = register t handler_name handler in
      elim err [ some e ↦ (t', some e) | none ↦ register_in_turn t' handlers ]

  -- `API.Register`
  unfoldable pub register_api : T → ApiHandlers H → T × Option String
  unfolding register_in_turn
  register_api t handlers = register_in_turn t (
      ("chaosblade", handlers.chaosblade)
      ∷ ("ping", handlers.ping)
      ∷ ("uninstall", handlers.uninstall)
      ∷ ("updateApplication", handlers.update_application)
      ∷ ("litmuschaos", handlers.litmuschaos)
      ∷ ("installLitmus", handlers.install_litmus)
      ∷ ("uninstallLitmus", handlers.uninstall_litmus)
      ∷ [])

abbrev some_handlers : ApiHandlers ℕ
some_handlers = record {
  chaosblade = 1;
  ping = 2;
  uninstall = 3;
  update_application = 4;
  litmuschaos = 5;
  install_litmus = 6;
  uninstall_litmus = 7;
}

-- the table of the gateway behind a registration
abbrev table : Dict ℕ × Option String
table =
    register_api (λ handlers name (h : ℕ). register_handler handlers name (some h)) [] some_handlers

register_test :
    (table.1 ≡ none) × (lookup table.0 "ping" ≡ some 2) × (lookup table.0 "installLitmus" ≡ some 6)
unfolding register_api register_handler lookup insert
register_test = (refl, refl, refl)
