-- ===== src/Transport/Interceptor/Handles.antt =====
-- When the chain lets a request through.
use chaosblade_box_agent.Prelude.{
  ℕ, ◌≡◌, ◌≢◌, ◌↔◌, refl, String, Bool, true, false, ◌⊎◌, inl, inr, none, some, List, arith, str_eq,
  eq_iff, Option-cases, Sum-cases,
}
use chaosblade_box_agent.Prelude.Dict.{Dict, get}
use chaosblade_box_agent.Prelude.Strconv.{parse_int}
use chaosblade_box_agent.Tools.Auth.{Keys, sign}
use chaosblade_box_agent.Transport.Request.{Request}
use chaosblade_box_agent.Transport.Response.{Response, return_fail, invalid_timestamp, forbidden}
use chaosblade_box_agent.Transport.Interceptor.{
  Verdict, pass, refuse, handle, build_interceptor, sign_data_of, access_key_key, sign_key,
  timestamp_key,
}

pub Verdict-cases : (v : Verdict) → (v ≡ pass) ⊎ ((response : Response) × (v ≡ refuse response))
Verdict-cases pass = inl refl
Verdict-cases (refuse response) = inr (response, refl)

-- what the two interceptors ask of a request
pub record Admitted (sum256 : String → List ℕ) (marshal : Dict String → String ⊎ String)
    (keys : Keys) (request : Request) : Type 0 where
  pub time : Bool × ℕ
  pub timestamped : parse_int (get request.params timestamp_key) ≡ some time
  pub access :
      (get request.headers access_key_key ≡ "")
      ⊎ (get request.headers access_key_key ≡ keys.local_access_key)
  pub signed : String
  pub encoded : sign_data_of sum256 marshal request ≡ inl signed
  pub signature : get request.headers sign_key ≡ sign sum256 keys signed
  pub nonempty : get request.headers sign_key ≢ ""

parse-blank : (s : String) → str_eq s "" ≡ true → parse_int s ≡ none
parse-blank s h = rw ((eq_iff s "").0 h) (unfold parse_int in refl)

parse-empty : {t : Bool × ℕ} → parse_int "" ≡ some t → ⊥
unfolding parse_int
parse-empty e = cc

module _ (sum256 : String → List ℕ) (marshal : Dict String → String ⊎ String) (keys : Keys)
    (request : Request) where
  auth_facts :
      (signed : String)
      → handle sum256 marshal build_interceptor keys request ≡ pass
      → sign_data_of sum256 marshal request ≡ inl signed
      → ((get request.headers access_key_key ≡ "")
          ⊎ (get request.headers access_key_key ≡ keys.local_access_key))
        × (get request.headers sign_key ≡ sign sum256 keys signed)
        × (get request.headers sign_key ≢ "")
  unfolding handle build_interceptor
  auth_facts signed e encoded = ground (
    arith,
    eq_iff (get request.headers sign_key) "",
    eq_iff (get request.headers access_key_key) "",
    eq_iff (get request.headers access_key_key) keys.local_access_key,
    eq_iff (sign sum256 keys signed) (get request.headers sign_key),
  )

  handle-Admitted :
      handle sum256 marshal build_interceptor keys request ≡ pass
      → Admitted sum256 marshal keys request
  unfolding handle build_interceptor
  handle-Admitted e = elim (Option-cases (parse_int (get request.params timestamp_key))) [
    | inl bad ↦ ground arith
    | inr (time, good) ↦ elim (Sum-cases (sign_data_of sum256 marshal request)) [
      | inr (err, failed) ↦ ground arith
      | inl (signed, encoded) ↦
          let facts = auth_facts signed e encoded in
          record {
            time = time;
            timestamped = good;
            access = facts.0;
            signed = signed;
            encoded = encoded;
            signature = facts.1;
            nonempty = facts.2;
          }
    ]
  ]

  Admitted-handle :
      Admitted sum256 marshal keys request
      → handle sum256 marshal build_interceptor keys request ≡ pass
  unfolding handle build_interceptor
  Admitted-handle a = ground (
    arith,
    parse-empty {t = a.time},
    eq_iff (get request.params timestamp_key) "",
    eq_iff (get request.headers sign_key) "",
    eq_iff (get request.headers access_key_key) "",
    eq_iff (get request.headers access_key_key) keys.local_access_key,
    eq_iff (sign sum256 keys a.signed) (get request.headers sign_key),
  )

-- The chain lets a request through exactly when its `ts` parameter is an int64, its `ak` header is
-- absent or the local access key, and its `sn` header is the signature of what is signed.
pub handle_iff :
    (sum256 : String → List ℕ) (marshal : Dict String → String ⊎ String) (keys : Keys)
    (request : Request)
    → (handle sum256 marshal build_interceptor keys request ≡ pass)
      ↔ Admitted sum256 marshal keys request
handle_iff sum256 marshal keys request =
    (handle-Admitted sum256 marshal keys request, Admitted-handle sum256 marshal keys request)

-- A refused request gets a failure: 401 where its `ts` parameter is no int64, and else 403.
pub handle_refusal :
    (sum256 : String → List ℕ) (marshal : Dict String → String ⊎ String) (keys : Keys)
    (request : Request) (response : Response)
    → handle sum256 marshal build_interceptor keys request ≡ refuse response
    → (response.success ≡ false)
      × (((response.code ≡ invalid_timestamp)
            × (parse_int (get request.params timestamp_key) ≡ none))
          ⊎ ((response.code ≡ forbidden) × (parse_int (get request.params timestamp_key) ≢ none)))
unfolding handle build_interceptor return_fail
handle_refusal sum256 marshal keys request response e =
    ground (arith, parse-blank (get request.params timestamp_key))
