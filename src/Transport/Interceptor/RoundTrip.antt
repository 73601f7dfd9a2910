-- ===== src/Transport/Interceptor/RoundTrip.antt =====
-- A request that one end signs is let through by the other.
use chaosblade_box_agent.Prelude.{
  ℕ, ◌/◌, ◌^◌, ◌<◌, ◌≡◌, ◌≢◌, refl, String, false, ◌⊎◌, inl, inr, List, [], arith, str_eq, eq_iff,
  Bool-cases,
}
use chaosblade_box_agent.Prelude.Dict.{Dict, get, insert, get-insert}
use chaosblade_box_agent.Prelude.Strconv.{
  format_int, parse_int-format_int, hex-ne-nil, base64-ne-nil,
}
use chaosblade_box_agent.Tools.Auth.{Keys, sign}
use chaosblade_box_agent.Transport.Response.{return_fail, token_not_found}
use chaosblade_box_agent.Transport.Request.{Request, add_header, add_param}
use chaosblade_box_agent.Transport.Interceptor.{
  pass, refuse, handle, invoke, build_interceptor, sign_data_of, sign_data_key, access_key_key,
  sign_key, timestamp_key,
}
use chaosblade_box_agent.Transport.Interceptor.Handles.{Admitted, handle_iff}

sign-ne-nil :
    (sum256 : String → List ℕ) (keys : Keys) (sign_data : String)
    → ((s : String) → sum256 s ≢ [])
    → sign sum256 keys sign_data ≢ ""
unfolding sign
sign-ne-nil sum256 keys sign_data digests = base64-ne-nil _ (hex-ne-nil _ (digests _))

sign_data_total :
    (sum256 : String → List ℕ) (marshal : Dict String → String ⊎ String) (request : Request)
    → ((m : Dict String) → (text : String) × (marshal m ≡ inl text))
    → (signed : String) × (sign_data_of sum256 marshal request ≡ inl signed)
unfolding sign_data_of
sign_data_total sum256 marshal request encodes =
    elim (Bool-cases (str_eq (get request.headers sign_data_key) "")) [
      | inl bare ↦ rw bare (encodes request.params)
      | inr given ↦ rw given (get request.headers sign_data_key, refl)
    ]

-- the request with its timestamp, and then with the two headers of the signature
abbrev stamped : ℕ → Request → Request
stamped unix_nano request = record request {
  params = insert request.params timestamp_key (format_int (unix_nano / 1000));
}

abbrev signed_by : String → String → Request → Request
signed_by access_key signature request = record request {
  headers = insert (insert request.headers access_key_key access_key) sign_key signature;
}

module _ (sum256 : String → List ℕ) (marshal : Dict String → String ⊎ String) (keys : Keys)
    (unix_nano : ℕ) (request : Request) (has_access : keys.local_access_key ≢ "")
    (has_secure : keys.local_secure_key ≢ "") (signed : String)
    (encoded : sign_data_of sum256 marshal (stamped unix_nano request) ≡ inl signed) where
  abbrev sent : Request
  sent = signed_by keys.local_access_key (sign sum256 keys signed) (stamped unix_nano request)

  invoke-sent : invoke sum256 marshal build_interceptor keys unix_nano request ≡ (sent, pass)
  unfolding invoke build_interceptor add_header add_param
  invoke-sent = ground (
    arith,
    eq_iff keys.local_access_key "",
    eq_iff keys.local_secure_key "",
    encoded,
    get-insert request.headers access_key_key sign_data_key keys.local_access_key,
  )

  sent-Admitted :
      unix_nano < 2 ^ 63 → ((s : String) → sum256 s ≢ []) → Admitted sum256 marshal keys sent
  unfolding sign_data_of
  sent-Admitted in_range digests = record {
    time = (false, unix_nano / 1000);
    timestamped = simp get-insert (parse_int-format_int (unix_nano / 1000) (omega arith));
    access = inr (simp get-insert);
    signed = signed;
    encoded = simp get-insert encoded;
    signature = simp get-insert;
    nonempty = simp get-insert (sign-ne-nil sum256 keys signed digests);
  }

-- With both keys set, a clock in the range of int64, a hash that is never empty and an encoder that
-- never fails, `Invoke` passes every request, and `Handle` with the same keys lets the request that
-- it leaves through.
pub handle-invoke :
    (sum256 : String → List ℕ) (marshal : Dict String → String ⊎ String) (keys : Keys)
    (unix_nano : ℕ) (request : Request)
    → keys.local_access_key ≢ ""
    → keys.local_secure_key ≢ ""
    → unix_nano < 2 ^ 63
    → ((s : String) → sum256 s ≢ [])
    → ((m : Dict String) → (text : String) × (marshal m ≡ inl text))
    → (request' : Request) × (invoke sum256 marshal build_interceptor keys unix_nano request
        ≡ (request', pass))
      × (handle sum256 marshal build_interceptor keys request' ≡ pass)
handle-invoke sum256 marshal keys unix_nano request has_access has_secure in_range digests encodes =
    let (signed, encoded) = sign_data_total sum256 marshal (stamped unix_nano request) encodes in
    (
      sent sum256 marshal keys unix_nano request has_access has_secure signed encoded,
      invoke-sent sum256 marshal keys unix_nano request has_access has_secure signed encoded,
      (handle_iff sum256 marshal keys _).1 (
          sent-Admitted sum256 marshal keys unix_nano request has_access has_secure signed encoded
            in_range digests),
    )

-- Without an access key or a secure key `Invoke` refuses every request with TokenNotFound.
pub invoke_no_keys :
    (sum256 : String → List ℕ) (marshal : Dict String → String ⊎ String) (keys : Keys)
    (unix_nano : ℕ) (request : Request)
    → (keys.local_access_key ≡ "") ⊎ (keys.local_secure_key ≡ "")
    → (invoke sum256 marshal build_interceptor keys unix_nano request).1
      ≡ refuse (return_fail token_not_found [])
unfolding invoke build_interceptor add_header add_param
invoke_no_keys sum256 marshal keys unix_nano request h =
    ground (arith, eq_iff keys.local_access_key "", eq_iff keys.local_secure_key "")
