-- ===== src/Conn/Connect/Registers.antt =====
-- The keys behind a registration.
use chaosblade_box_agent.Prelude.{
  refl, ◌≡◌, ◌≢◌, String, true, none, some, ◌⊎◌, inl, inr, arith, eq_iff, Option-cases, Bool-cases,
}
use chaosblade_box_agent.Prelude.Dict.{Dict}
use chaosblade_box_agent.Options.{set_cid, set_uid}
use chaosblade_box_agent.Tools.Auth.{Keys}
use chaosblade_box_agent.Tools.Record.{Disk, record_secret_key_to_file}
use chaosblade_box_agent.Transport.Json.{
  Json, null, bool, num, str, arr, obj, Fields, lookup_field, as_map, as_string,
}
use chaosblade_box_agent.Transport.Response.{Response}
use chaosblade_box_agent.Conn.Connect.{
  Agent, Connected, rejected, panicked, connected, present, record_keys, take_uid, cid_of,
  handle_direct_http_connect_response,
}

module _ (disk : Disk) where
  record-kept :
      (files : Dict String) (keys : Keys) (access_key secret_key : String)
      → let (state, err) = record_secret_key_to_file disk (files, keys) access_key secret_key in
        ((err ≡ none)
          × (state.1 ≡ (record { local_access_key = access_key; local_secure_key = secret_key }))
          × (access_key ≢ "")
          × (secret_key ≢ ""))
        ⊎ ((err ≢ none) × (state.1 ≡ keys))
  unfolding record_secret_key_to_file
  record-kept files keys access_key secret_key =
      ground (arith, eq_iff access_key "", eq_iff secret_key "")

  record_keys-kept :
      (agent : Agent) (v : Fields)
      → ((record_keys disk agent v).1 ≡ connected
          → ((record_keys disk agent v).0.keys.local_access_key ≢ "")
            × ((record_keys disk agent v).0.keys.local_secure_key ≢ "")
            × (present v "ak" ≡ some (str (record_keys disk agent v).0.keys.local_access_key))
            × (present v "sk" ≡ some (str (record_keys disk agent v).0.keys.local_secure_key)))
        × ((record_keys disk agent v).1 ≢ connected
            → (record_keys disk agent v).0.keys ≡ agent.keys)
        × ((record_keys disk agent v).0.opts ≡ agent.opts)
  unfolding record_keys
  record_keys-kept agent v = elim (Option-cases (present v "ak")) [
    | inl no_ak ↦ ground arith
    | inr (ak, has_ak) ↦ elim (Option-cases (present v "sk")) [
      | inl no_sk ↦ ground arith
      | inr (sk, has_sk) ↦ elim (Option-cases (as_string ak)) [
        | inl no_text ↦ ground arith
        | inr (access_key, ak_text) ↦ elim (Option-cases (as_string sk)) [
          | inl no_text ↦ ground arith
          | inr (secret_key, sk_text) ↦
              ground (arith, record-kept agent.files agent.keys access_key secret_key)
        ]
      ]
    ]
  ]

  take_uid-kept :
      (agent : Agent) (v : Fields)
      → ((take_uid disk agent v).1 ≡ connected
          → ((take_uid disk agent v).0.keys.local_access_key ≢ "")
            × ((take_uid disk agent v).0.keys.local_secure_key ≢ "")
            × (present v "ak" ≡ some (str (take_uid disk agent v).0.keys.local_access_key))
            × (present v "sk" ≡ some (str (take_uid disk agent v).0.keys.local_secure_key)))
        × ((take_uid disk agent v).1 ≢ connected → (take_uid disk agent v).0.keys ≡ agent.keys)
        × ((take_uid disk agent v).0.opts.cid ≡ agent.opts.cid)
  unfolding take_uid set_uid
  take_uid-kept agent v = elim (Option-cases (present v "uid")) [
    | inl no_uid ↦ ground (arith, record_keys-kept agent v)
    | inr (uid, has_uid) ↦ elim (Option-cases (as_string uid)) [
      | inl no_text ↦ ground arith
      | inr (text, uid_text) ↦
          let agent' : Agent = record agent { opts = set_uid agent.opts text } in
          ground (arith, record_keys-kept agent' v)
    ]
  ]

present-lookup :
    (v : Fields) (k : String) (x : Json) → present v k ≡ some x → lookup_field v k ≡ some x
unfolding present
present-lookup v k x e = ground arith

as_string-eq : (x : Json) (s : String) → as_string x ≡ some s → x ≡ str s
as_string-eq (str t) s e = ground arith
as_string-eq null s e = ground arith
as_string-eq (bool b) s e = ground arith
as_string-eq (num n) s e = ground arith
as_string-eq (arr vs) s e = ground arith
as_string-eq (obj fs) s e = ground arith

cid_of-lookup :
    (v : Fields) (cid : String) → cid_of v ≡ some cid → lookup_field v "cid" ≡ some (str cid)
cid_of-lookup v cid e = elim (Option-cases (lookup_field v "cid")) [
  | inl missing ↦ ground arith
  | inr (x, found) ↦ ground (arith, as_string-eq x cid)
]

handle-take_uid :
    (disk : Disk) (agent : Agent) (response : Response) (v : Fields) (cid : String)
    → response.success ≡ true
    → as_map response.result ≡ some v
    → cid_of v ≡ some cid
    → handle_direct_http_connect_response disk agent response
      ≡ take_uid disk (record agent { opts = set_cid agent.opts cid }) v
unfolding handle_direct_http_connect_response
handle-take_uid disk agent response v cid succeeds is_map has_cid = ground arith

-- what a registration leaves of the response: its `cid` in the options, its `ak` and `sk` as the keys
-- that sign, and neither of them empty
pub record Registered (response : Response) (agent : Agent) : Type 0 where
  pub fields : Fields
  pub is_map : as_map response.result ≡ some fields
  pub success : response.success ≡ true
  pub cid : lookup_field fields "cid" ≡ some (str agent.opts.cid)
  pub ak : lookup_field fields "ak" ≡ some (str agent.keys.local_access_key)
  pub sk : lookup_field fields "sk" ≡ some (str agent.keys.local_secure_key)
  pub has_access : agent.keys.local_access_key ≢ ""
  pub has_secure : agent.keys.local_secure_key ≢ ""

connect-kept :
    (disk : Disk) (agent : Agent) (response : Response)
    → ((handle_direct_http_connect_response disk agent response).1 ≡ connected
        → Registered response (handle_direct_http_connect_response disk agent response).0)
      × ((handle_direct_http_connect_response disk agent response).1 ≢ connected
          → (handle_direct_http_connect_response disk agent response).0.keys ≡ agent.keys)
unfolding handle_direct_http_connect_response set_cid
connect-kept disk agent response = elim (Bool-cases response.success) [
  | inr fails ↦ (λ e. absurd (ground arith), ground arith)
  | inl succeeds ↦ elim (Option-cases (as_map response.result)) [
    | inl no_map ↦ (λ e. absurd (ground arith), ground arith)
    | inr (v, is_map) ↦ elim (Option-cases (cid_of v)) [
      | inl no_cid ↦ (λ e. absurd (ground arith), ground arith)
      | inr (cid, has_cid) ↦
          let agent' : Agent = record agent { opts = set_cid agent.opts cid } in
          let after = (take_uid disk agent' v).0 in
          let kept = take_uid-kept disk agent' v in
          let taken = handle-take_uid disk agent response v cid succeeds is_map has_cid in
          (
            λ e.
                let facts = kept.0 (ground (arith, taken)) in
                rw taken (record {
                  fields = v;
                  is_map = is_map;
                  success = succeeds;
                  cid = ground (arith, cid_of-lookup v cid has_cid, kept.2);
                  ak = present-lookup v "ak" (str after.keys.local_access_key) facts.2;
                  sk = present-lookup v "sk" (str after.keys.local_secure_key) facts.3;
                  has_access = facts.0;
                  has_secure = facts.1;
                }),
            ground (arith, kept.1, taken),
          )
    ]
  ]
]

Connected-cases : (c : Connected) → (c ≡ connected) ⊎ (c ≢ connected)
Connected-cases connected = inl refl
Connected-cases (rejected err) = inr (λ e. cc)
Connected-cases panicked = inr (λ e. cc)

-- A registration that ends well leaves the response's `cid` in the options and its `ak` and `sk`,
-- neither of them empty, as the keys that sign; one that ends with an error or a panic leaves the
-- keys as they were.
pub connect_keys :
    (disk : Disk) (agent : Agent) (response : Response)
    → let (agent', outcome) = handle_direct_http_connect_response disk agent response in
      ((outcome ≡ connected) × Registered response agent')
      ⊎ ((outcome ≢ connected) × (agent'.keys ≡ agent.keys))
connect_keys disk agent response =
    let (registers, keeps) = connect-kept disk agent response in
    elim (Connected-cases (handle_direct_http_connect_response disk agent response).1) [
      | inl well ↦ inl (well, registers well)
      | inr badly ↦ inr (badly, keeps badly)
    ]
