-- ===== src/Handler/Litmus/Rbac/Binds.antt =====
-- What preparing the roles leaves behind: where it returns no error, a role was created and bound.
use chaosblade_box_agent.Prelude.{
  ◌≡◌, refl, sym, subst, inl, inr, arith, String, Option, none, some, List, [], ◌∷◌, str_eq,
  Outcome, returned, panic, Bool-cases, Option-cases, Sum-cases,
}
use chaosblade_box_agent.Handler.Litmus.Cluster.{
  ApiError, already_exists, not_found, other_error, api_message, Call, create_service_account,
  get_role, delete_role, create_role, create_role_binding, Surroundings, World, call,
  download_litmus, split_dashes, trim_newlines,
}
use chaosblade_box_agent.Handler.Litmus.Rbac.{
  unless_exists, decode_for, decode_binding_for, returning, create_role_and_bind,
  create_role_and_role_binding, k8s_kind_cluster_role, prepare_roles, prepare_parts,
  prepare_litmus_rbac,
}

-- no error, or one that says that the object is there already
abbrev pub Accepted : Option ApiError → Type 0
Accepted none = Unit
Accepted (some (already_exists m)) = Unit
Accepted (some (not_found m)) = ⊥
Accepted (some (other_error m)) = ⊥

unless_exists-Accepted : (reply : Option ApiError) → unless_exists reply ≡ none → Accepted reply
unless_exists-Accepted none e = tt
unless_exists-Accepted (some (already_exists m)) e = tt
unless_exists-Accepted (some (not_found m)) e = cc
unless_exists-Accepted (some (other_error m)) e = cc

-- the last two calls create a role and bind it, in the same scope: the role was created, and the
-- binding was or is there already
abbrev pub RoleBound : Surroundings → List Call → Type 0
RoleBound s calls =
    (scope : Option String) × (role : String) × (binding : String) × (before : List Call) × (calls
      ≡ create_role_binding scope binding ∷ create_role scope role ∷ before)
    × (s.reply before (create_role scope role) ≡ none)
    × Accepted (s.reply (create_role scope role ∷ before) (create_role_binding scope binding))

-- what was returned without an error has bound a role
abbrev pub Bound : Surroundings → World × Outcome (Option String) → Type 0
Bound s (w, returned none) = RoleBound s w.calls
Bound s (w, returned (some e)) = Unit
Bound s (w, panic) = Unit

module _ (s : Surroundings) where
  create_role_and_bind-Bound :
      (scope : Option String) (role binding : String) (w : World)
      → Bound s (returning (create_role_and_bind s scope role binding w))
  unfolding create_role_and_bind call
  create_role_and_bind-Bound scope role binding w =
      let result = returning (create_role_and_bind s scope role binding w) in
      let w1 = record w { calls = create_role scope role ∷ w.calls } in
      let w2 = record w {
        calls = create_role_binding scope binding ∷ create_role scope role ∷ w.calls;
      } in
      elim (Option-cases (s.reply w.calls (create_role scope role))) [
        | inr (err, refused) ↦
            let e : result ≡ (w1, returned (some (api_message err))) = ground arith in
            subst (Bound s) (sym e) tt
        | inl made ↦ elim (Option-cases (decode_binding_for s scope binding)) [
          | inr (err, undecoded) ↦
              let e : result ≡ (w1, returned (some err)) = ground arith in
              subst (Bound s) (sym e) tt
          | inl decoded ↦
              elim (Option-cases
                (unless_exists (s.reply w1.calls (create_role_binding scope binding)))) [
                  | inr (err, refused) ↦
                      let e : result ≡ (w2, returned (some err)) = ground arith in
                      subst (Bound s) (sym e) tt
                  | inl bound ↦
                      let e : result ≡ (w2, returned none) = ground arith in
                      subst (Bound s) (sym e)
                        (scope, role, binding, w.calls, refl, made, unless_exists-Accepted _ bound)
                ]
        ]
      ]

  create_role_and_role_binding-Bound :
      (scope : Option String) (role binding : String) (w : World)
      → Bound s (create_role_and_role_binding s scope role binding w)
  unfolding create_role_and_role_binding call
  create_role_and_role_binding-Bound scope role binding w =
      let result = create_role_and_role_binding s scope role binding w in
      let created = λ (w : World). returning (create_role_and_bind s scope role binding w) in
      elim (Sum-cases (decode_for s scope role)) [
        | inl (err, undecoded) ↦
            let e : result ≡ (w, returned (some err)) = ground arith in subst (Bound s) (sym e) tt
        | inr (decoded, is_decoded) ↦ elim (Option-cases decoded) [
          | inl empty ↦ let e : result ≡ (w, panic) = ground arith in subst (Bound s) (sym e) tt
          | inr ((kind, name), has_name) ↦
              let w1 = record w { calls = get_role scope name ∷ w.calls } in
              let w2 = record w {
                calls = delete_role scope name ∷ get_role scope name ∷ w.calls;
              } in
              elim (Option-cases (s.reply w.calls (get_role scope name))) [
                | inr (not_found m, refused) ↦
                    let e : result ≡ created w1 = ground arith in
                    subst (Bound s) (sym e) (create_role_and_bind-Bound scope role binding w1)
                | inr (already_exists m, refused) ↦
                    let e : result ≡ (w1, returned (some m)) = ground arith in
                    subst (Bound s) (sym e) tt
                | inr (other_error m, refused) ↦
                    let e : result ≡ (w1, returned (some m)) = ground arith in
                    subst (Bound s) (sym e) tt
                | inl there ↦ elim (Option-cases (s.reply w1.calls (delete_role scope name))) [
                  | inr (err, kept) ↦
                      let e : result ≡ (w2, returned (some (api_message err))) = ground arith in
                      subst (Bound s) (sym e) tt
                  | inl deleted ↦
                      let e : result ≡ created w2 = ground arith in
                      subst (Bound s) (sym e) (create_role_and_bind-Bound scope role binding w2)
                ]
              ]
        ]
      ]

  prepare_roles-Bound :
      (namespace : String) (parts : List String) (w : World)
      → Bound s (prepare_roles s namespace parts w)
  unfolding prepare_roles
  prepare_roles-Bound namespace [] w = tt
  prepare_roles-Bound namespace (part ∷ []) w =
      elim (Sum-cases (s.decode_role (trim_newlines part))) [
        | inl (err, undecoded) ↦
            let e : prepare_roles s namespace (part ∷ []) w ≡ (w, returned (some err)) =
              ground arith in
            subst (Bound s) (sym e) tt
        | inr (decoded, is_decoded) ↦
            let e : prepare_roles s namespace (part ∷ []) w ≡ (w, panic) = ground arith in
            subst (Bound s) (sym e) tt
      ]
  prepare_roles-Bound namespace (part ∷ binding_part ∷ more) w =
      let role = trim_newlines part in
      let binding = trim_newlines binding_part in
      let result = prepare_roles s namespace (part ∷ binding_part ∷ more) w in
      elim (Sum-cases (s.decode_role role)) [
        | inl (err, undecoded) ↦
            let e : result ≡ (w, returned (some err)) = ground arith in subst (Bound s) (sym e) tt
        | inr (decoded, is_decoded) ↦ elim (Option-cases decoded) [
          | inl empty ↦ let e : result ≡ (w, panic) = ground arith in subst (Bound s) (sym e) tt
          | inr ((kind, name), has_name) ↦ elim (Bool-cases (str_eq kind k8s_kind_cluster_role)) [
            | inl cluster ↦
                let e : result ≡ create_role_and_role_binding s none role binding w =
                  ground arith in
                subst (Bound s) (sym e) (create_role_and_role_binding-Bound none role binding w)
            | inr namespaced ↦
                let e : result ≡ create_role_and_role_binding s (some namespace) role binding w =
                  ground arith in
                subst (Bound s) (sym e)
                  (create_role_and_role_binding-Bound (some namespace) role binding w)
          ]
        ]
      ]

  prepare_parts-Bound :
      (namespace : String) (parts : List String) (w : World)
      → Bound s (prepare_parts s namespace parts w)
  unfolding prepare_parts call
  prepare_parts-Bound namespace [] w = tt
  prepare_parts-Bound namespace (a ∷ []) w = tt
  prepare_parts-Bound namespace (a ∷ b ∷ []) w = tt
  prepare_parts-Bound namespace (a ∷ account ∷ role ∷ rest) w =
      let c = create_service_account namespace (trim_newlines account) in
      let w1 = record w { calls = c ∷ w.calls } in
      let result = prepare_parts s namespace (a ∷ account ∷ role ∷ rest) w in
      elim (Option-cases (unless_exists (s.reply w.calls c))) [
        | inr (err, refused) ↦
            let e : result ≡ (w1, returned (some err)) = ground arith in subst (Bound s) (sym e) tt
        | inl accounted ↦
            let e : result ≡ prepare_roles s namespace (role ∷ rest) w1 = ground arith in
            subst (Bound s) (sym e) (prepare_roles-Bound namespace (role ∷ rest) w1)
      ]

  pub prepare_litmus_rbac-Bound :
      (version experiment_type experiment_name namespace : String) (w : World)
      → Bound s (prepare_litmus_rbac s version experiment_type experiment_name namespace w)
  unfolding prepare_litmus_rbac
  prepare_litmus_rbac-Bound version experiment_type experiment_name namespace w =
      let result = prepare_litmus_rbac s version experiment_type experiment_name namespace w in
      let downloaded = download_litmus s version experiment_type experiment_name "rbac" w in
      elim (Sum-cases downloaded.1) [
        | inl (err, fails) ↦
            let e : result ≡ (downloaded.0, returned (some err)) = ground arith in
            subst (Bound s) (sym e) tt
        | inr (text, holds) ↦
            let e : result ≡ prepare_parts s namespace (split_dashes text) downloaded.0 =
              ground arith in
            subst (Bound s) (sym e) (prepare_parts-Bound namespace (split_dashes text) downloaded.0)
      ]
