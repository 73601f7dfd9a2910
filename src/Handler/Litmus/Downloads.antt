-- ===== src/Handler/Litmus/Downloads.antt =====
-- The file that the first fetch of the text of the roles leaves, and what comes of it.
use chaosblade_box_agent.Prelude.{
  ◌≡◌, ap, ◌∙◌, ◌⊎◌, inl, inr, arith, String, Bool, true, Option, none, some, List, if◌then◌else◌,
  Option-cases, Outcome, returned, eq_refl,
}
use chaosblade_box_agent.Prelude.Dict.{lookup, insert, lookup-insert}
use chaosblade_box_agent.Handler.Litmus.Cluster.{
  Call, HubReply, Surroundings, World, path_of, url_of, copy_body, download_litmus, split_dashes,
}
use chaosblade_box_agent.Handler.Litmus.Rbac.{prepare_parts, prepare_litmus_rbac}

module _ (s : Surroundings) (version experiment_type experiment_name namespace : String)
    (w : World) where
  -- what the first reading of the text of the roles gives
  abbrev pub rbac_text : World × (String ⊎ String)
  rbac_text = download_litmus s version experiment_type experiment_name "rbac" w

  -- what a reply's body is read as, in whole
  abbrev pub read_all : HubReply → String ⊎ String
  read_all reply = elim reply.body_error [ some err ↦ inl err | none ↦ inr reply.body ]

  fetch_leaves_empty :
      (object_type : String) (reply : HubReply)
      → lookup w.files (path_of version experiment_type experiment_name object_type) ≡ none
      → s.http_get (url_of version experiment_type experiment_name object_type) ≡ inr reply
      → reply.status ≡ 200
      → s.can_create (path_of version experiment_type experiment_name object_type) ≡ true
      → download_litmus s version experiment_type experiment_name object_type w ≡ (
        record w {
          files = insert w.files (path_of version experiment_type experiment_name object_type) "";
        },
        read_all reply,
      )
  unfolding download_litmus copy_body
  fetch_leaves_empty object_type reply missing fetched fine creatable =
      elim (Option-cases reply.body_error) [
        | inl whole ↦ ground arith
        | inr (err, broken) ↦ ground arith
      ]

  read_file :
      (object_type text : String) (w' : World)
      → lookup w'.files (path_of version experiment_type experiment_name object_type) ≡ some text
      → s.read_error (path_of version experiment_type experiment_name object_type) ≡ none
      → download_litmus s version experiment_type experiment_name object_type w' ≡ (w', inr text)
  unfolding download_litmus
  read_file object_type text w' there readable = ground arith

  empty_parts :
      (w' : World)
      → download_litmus s version experiment_type experiment_name "rbac" w' ≡ (w', inr "")
      → prepare_litmus_rbac s version experiment_type experiment_name namespace w'
        ≡ (w', returned (some "get rbac.yaml failed"))
  unfolding prepare_litmus_rbac prepare_parts split_dashes
  empty_parts w' reads =
      ap
        (λ (d : World × (String ⊎ String)).
          let y : World × Outcome (Option String) = elim d.1 [
            | inl err ↦ (d.0, returned (some err))
            | inr text ↦ prepare_parts s namespace (split_dashes text) d.0
          ] in
          y)
        reads

  -- Where the text of the roles is fetched from the hub with the status 200 and its file can be created
  -- and read, the file is left empty. What is returned is the body, or the error that it breaks off
  -- with; and every later preparation for the same version and experiment, as long as the files stay,
  -- fails and calls nothing.
  pub download_litmus_spoils :
      (reply : HubReply) (calls : List Call)
      → lookup w.files (path_of version experiment_type experiment_name "rbac") ≡ none
      → s.http_get (url_of version experiment_type experiment_name "rbac") ≡ inr reply
      → reply.status ≡ 200
      → s.can_create (path_of version experiment_type experiment_name "rbac") ≡ true
      → s.read_error (path_of version experiment_type experiment_name "rbac") ≡ none
      → (lookup rbac_text.0.files (path_of version experiment_type experiment_name "rbac")
          ≡ some "")
        × (rbac_text.1 ≡ read_all reply)
        × (prepare_litmus_rbac s version experiment_type experiment_name namespace
              (record rbac_text.0 { calls = calls })
            ≡ (record rbac_text.0 { calls = calls }, returned (some "get rbac.yaml failed")))
  download_litmus_spoils reply calls missing fetched fine creatable readable =
      let path = path_of version experiment_type experiment_name "rbac" in
      let first = fetch_leaves_empty "rbac" reply missing fetched fine creatable in
      let w' : World = record rbac_text.0 { calls = calls } in
      let left : lookup rbac_text.0.files path ≡ some "" =
        ap (λ (r : World × (String ⊎ String)). lookup r.0.files path) first
        ∙ lookup-insert w.files path path ""
        ∙ ap (λ (b : Bool). if b then some "" else lookup w.files path) (eq_refl path) in
      (
        left,
        ap (λ (r : World × (String ⊎ String)). r.1) first,
        empty_parts w' (read_file "rbac" "" w' left readable),
      )
