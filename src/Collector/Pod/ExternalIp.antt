-- ===== src/Collector/Pod/ExternalIp.antt =====
-- collector/kubernetes/pod.go: `setAgentExternalIp`, over the name and the external address of each
-- service.
use chaosblade_box_agent.Prelude.{
  ◌≡◌, ◌≢◌, refl, ap, ◌⊎◌, inl, inr, arith, String, Bool, true, false, List, [], ◌∷◌, ◌++◌, All,
  str_eq, ◌||◌, if◌then◌else◌, Bool-cases, eq_iff,
}
use chaosblade_box_agent.Prelude.Text.{trim_space, before_comma}
use chaosblade_box_agent.Options.{Options}

abbrev pub default_agent_service_name : String
default_agent_service_name = "chaos-agent"

-- a member of `invalidIPs`
unfoldable pub is_invalid_ip : String → Bool
is_invalid_ip ip = str_eq ip "<none>" || str_eq ip "<pending>" || str_eq ip "<unknown>"

-- the loop over the services
unfoldable pub find_external_ip : Options → List (String × String) → Options
unfolding is_invalid_ip
find_external_ip opts [] = opts
find_external_ip opts ((name, external_ip) ∷ services) =
    let later = find_external_ip opts services in
    let valid_ip = trim_space (before_comma external_ip) in
    if str_eq name default_agent_service_name
    then (if str_eq external_ip ""
        then later
        else if is_invalid_ip external_ip
        then opts
        else if str_eq valid_ip ""
        then later
        else if is_invalid_ip valid_ip
        then later
        else record opts { ip = valid_ip })
    else later

-- `setAgentExternalIp`
unfoldable pub set_agent_external_ip : Options → List (String × String) → Options
unfolding find_external_ip
set_agent_external_ip opts services =
    if str_eq opts.local_ip "" then find_external_ip opts services else opts

-- what an address must not be
abbrev pub Placeholder : String → Type 0
Placeholder ip = (ip ≡ "<none>") ⊎ (ip ≡ "<pending>") ⊎ (ip ≡ "<unknown>")

-- the text before the first comma, without the white space around it
abbrev pub address_in : String → String
address_in external_ip = trim_space (before_comma external_ip)

-- a service that the loop goes past: another one, one without an external address, or one whose
-- address is none or a placeholder behind the comma is cut off
abbrev pub Passed : String × String → Type 0
Passed (name, external_ip) =
    (name ≢ "chaos-agent")
    ⊎ (external_ip ≡ "")
    ⊎ ((Placeholder external_ip → ⊥)
        × ((address_in external_ip ≡ "") ⊎ Placeholder (address_in external_ip)))

-- the loop went past all services and the options stay, or it came to a service of the agent's name:
-- one whose address is a placeholder, and the options stay, or one with an address, which the agent
-- takes over
abbrev pub Taken : Options → List (String × String) → Options → Type 0
Taken opts services opts' =
    (All Passed services × (opts' ≡ opts))
    ⊎ ((before after : List (String × String)) × (external_ip : String) × (services
          ≡ before ++ ("chaos-agent", external_ip) ∷ after)
        × All Passed before
        × ((Placeholder external_ip × (opts' ≡ opts))
            ⊎ ((Placeholder external_ip → ⊥)
                × (address_in external_ip ≢ "")
                × (Placeholder (address_in external_ip) → ⊥)
                × (opts' ≡ record opts { ip = address_in external_ip }))))

Taken-later :
    (opts opts' : Options) (service : String × String) (services : List (String × String))
    → Passed service
    → Taken opts services opts'
    → Taken opts (service ∷ services) opts'
Taken-later opts opts' service services passed (inl (all_passed, same)) =
    inl ((passed, all_passed), same)
Taken-later opts opts' service services passed (inr (before, after, ip, at, earlier, taken)) = inr (
  service ∷ before,
  after,
  ip,
  ap (λ (l : List (String × String)). service ∷ l) at,
  (passed, earlier),
  taken,
)

Placeholder-cases :
    (ip : String)
    → ((is_invalid_ip ip ≡ true) × Placeholder ip)
      ⊎ ((is_invalid_ip ip ≡ false) × (Placeholder ip → ⊥))
unfolding is_invalid_ip
Placeholder-cases ip = elim (Bool-cases (str_eq ip "<none>")) [
  | inl none ↦ inl (ground arith, inl ((eq_iff ip "<none>").0 none))
  | inr not_none ↦ elim (Bool-cases (str_eq ip "<pending>")) [
    | inl pending ↦ inl (ground arith, inr (inl ((eq_iff ip "<pending>").0 pending)))
    | inr not_pending ↦ elim (Bool-cases (str_eq ip "<unknown>")) [
      | inl unknown ↦ inl (ground arith, inr (inr ((eq_iff ip "<unknown>").0 unknown)))
      | inr not_unknown ↦ inr (
        ground arith,
        λ p. elim p [
          | inl e ↦ cc ((eq_iff ip "<none>").1 e, not_none)
          | inr (inl e) ↦ cc ((eq_iff ip "<pending>").1 e, not_pending)
          | inr (inr e) ↦ cc ((eq_iff ip "<unknown>").1 e, not_unknown)
        ],
      )
    ]
  ]
]

find_external_ip-Taken :
    (opts : Options) (services : List (String × String))
    → Taken opts services (find_external_ip opts services)
unfolding find_external_ip
find_external_ip-Taken opts [] = inl (tt, refl)
find_external_ip-Taken opts ((name, external_ip) ∷ services) =
    let later = find_external_ip-Taken opts services in
    let valid_ip = address_in external_ip in
    let past = λ (passed : Passed (name, external_ip)).
      Taken-later opts (find_external_ip opts services) (name, external_ip) services passed later in
    elim (Bool-cases (str_eq name default_agent_service_name)) [
      | inr other ↦ rw other (past (inl (ground (arith, eq_iff name "chaos-agent"))))
      | inl named ↦
          let at : (name, external_ip) ∷ services ≡ ("chaos-agent", external_ip) ∷ services =
            ap (λ (n : String). (n, external_ip) ∷ services)
              ((eq_iff name "chaos-agent").0 named) in
          rw named (elim (Bool-cases (str_eq external_ip "")) [
            | inl blank ↦ rw blank (past (inr (inl ((eq_iff external_ip "").0 blank))))
            | inr given ↦ rw given (elim (Placeholder-cases external_ip) [
              | inl (invalid, placeholder) ↦
                  rw invalid (inr ([], services, external_ip, at, tt, inl (placeholder, refl)))
              | inr (readable, real) ↦ rw readable (elim (Bool-cases (str_eq valid_ip "")) [
                | inl nothing ↦
                    rw nothing (past (inr (inr (real, inl ((eq_iff valid_ip "").0 nothing)))))
                | inr some_ip ↦ rw some_ip (elim (Placeholder-cases valid_ip) [
                  | inl (invalid, placeholder) ↦
                      rw invalid (past (inr (inr (real, inr placeholder))))
                  | inr (valid, real_ip) ↦
                      let present : valid_ip ≢ "" = ground (arith, eq_iff valid_ip "") in
                      rw valid (
                        inr ([], services, external_ip, at, tt, inr (real, present, real_ip, refl)))
                ])
              ])
            ])
          ])
    ]

-- Where an address was given by the flag `localIp` the options stay as they were. Else the first
-- service that is named `chaos-agent` and has an external address decides, where services are gone past
-- whose address, cut at the comma and trimmed, is empty or one of `<none>`, `<pending>` and `<unknown>`:
-- the agent takes over the trimmed address before the comma, which is none of these four, and the other
-- options stay. Without such a service, or where the whole address is a placeholder, all options stay.
pub set_agent_external_ip-Taken :
    (opts : Options) (services : List (String × String))
    → ((opts.local_ip ≢ "") × (set_agent_external_ip opts services ≡ opts))
      ⊎ ((opts.local_ip ≡ "") × Taken opts services (set_agent_external_ip opts services))
unfolding set_agent_external_ip
set_agent_external_ip-Taken opts services = elim (Bool-cases (str_eq opts.local_ip "")) [
  | inl unset ↦
      rw unset (inr ((eq_iff opts.local_ip "").0 unset, find_external_ip-Taken opts services))
  | inr given ↦ rw given (inl (ground (arith, eq_iff opts.local_ip ""), refl))
]
