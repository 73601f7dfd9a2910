-- ===== src/Handler/Litmus/Install.antt =====
-- web/handler/litmuschaos/installlitmus.go and uninstalllitmus.go: the operator of Litmus. The calls of
-- Helm are parameters.
use Prim.Native.String.{◌++◌ as str_append}
use chaosblade_box_agent.Prelude.{
  ◌≡◌, refl, Outcome, returned, panic, String, ◌⊎◌, inl, inr, Option, none, some, [], ◌∷◌,
}
use chaosblade_box_agent.Prelude.Dict.{Dict, lookup}
use chaosblade_box_agent.Options.{Options}
use chaosblade_box_agent.Transport.Request.{Request}
use chaosblade_box_agent.Transport.Response.{
  Response, return_fail, return_success, parameter_less, helm3_exec_error,
}

-- a `Helm`: each call gives nil or an error, and a chart that is loaded is a text
pub record Helm : Type 0 where
  pub pull_chart : String → Option String
  pub load_chart : String → String ⊎ String
  pub install : String → Dict String → Option String
  pub uninstall : Option String

abbrev pub litmus_helm_namespace : String
litmus_helm_namespace = "chaos"

-- `getLitmusUrlByVersionAndEnv`
abbrev pub get_litmus_url : String → String → String
get_litmus_url litmus_chart_url version = str_append litmus_chart_url (str_append ":" version)

abbrev pub helm_fail : String → Response
helm_fail err = return_fail helm3_exec_error (err ∷ [])

-- `InstallLitmusHandler` and `UninstallLitmusHandler`, whose instance of Helm may be nil
pub record LitmusHelmHandler : Type 0 where
  pub helm : Option Helm

-- `NewInstallLitmusHandler` and `NewUninstallLitmusHandler`: a nil pointer where there is no Helm
unfoldable pub new_litmus_helm_handler : Option Helm → Option LitmusHelmHandler
new_litmus_helm_handler helm = elim helm [ none ↦ none | some h ↦ some (record { helm = some h }) ]

-- `installLitmus`; the pointer and its instance of Helm may be nil
unfoldable pub install_litmus :
    Option LitmusHelmHandler → String → Options → String → Dict String → Options × Outcome Response
install_litmus handler litmus_chart_url opts version vals = elim handler [
  | none ↦ (opts, panic)
  | some ilh ↦ elim ilh.helm [
    | none ↦ (opts, returned (helm_fail "helm instance is nil"))
    | some helm ↦
        let chart_url = get_litmus_url litmus_chart_url version in
        elim (helm.pull_chart chart_url) [
          | some err ↦ (opts, returned (helm_fail err))
          | none ↦ elim (helm.load_chart chart_url) [
            | inl err ↦ (opts, returned (helm_fail err))
            | inr charts ↦ elim (helm.install charts vals) [
              | some err ↦ (opts, returned (helm_fail err))
              | none ↦ (record opts { litmus_chaos_version = version }, returned return_success)
            ]
          ]
        ]
  ]
]

-- `InstallLitmusHandler.Handle`
unfoldable pub install_handle :
    Option LitmusHelmHandler → String → Options → Request → Options × Outcome Response
unfolding lookup install_litmus
install_handle handler litmus_chart_url opts request = elim (lookup request.params "version") [
  | none ↦ (opts, returned (return_fail parameter_less ("version" ∷ [])))
  | some version ↦
      install_litmus handler litmus_chart_url opts version
        (("namespace", litmus_helm_namespace) ∷ [])
]

-- `uninstallLitmus`: a call of a nil instance of Helm panics
unfoldable pub uninstall_litmus : Option LitmusHelmHandler → Options → Options × Outcome Response
uninstall_litmus handler opts = elim handler [
  | none ↦ (opts, panic)
  | some ulh ↦ elim ulh.helm [
    | none ↦ (opts, panic)
    | some helm ↦ elim helm.uninstall [
      | some err ↦ (opts, returned (helm_fail err))
      | none ↦ (record opts { litmus_chaos_version = "" }, returned return_success)
    ]
  ]
]

-- `UninstallLitmusHandler.Handle`
unfoldable pub uninstall_handle_litmus :
    Option LitmusHelmHandler → Options → Request → Options × Outcome Response
unfolding uninstall_litmus
uninstall_handle_litmus handler opts request = uninstall_litmus handler opts

-- without an instance of Helm an installation panics, and does not answer that there is none
nil_handler_panics :
    (opts : Options)
    → (install_handle
        (new_litmus_helm_handler none)
        "oci://charts"
        opts
        (record { headers = []; params = ("version", "2.0") ∷ [] })).1
      ≡ panic
unfolding install_handle new_litmus_helm_handler install_litmus lookup
nil_handler_panics opts = refl
