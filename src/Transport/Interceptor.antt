-- ===== src/Transport/Interceptor.antt =====
-- transport/interceptor.go: the chain of interceptors that both ends run over a request. SHA-256
-- and `json.Marshal` of a `map[string]string` (the text, or the error's message) are parameters.
pub mod Handles
pub mod RoundTrip
use chaosblade_box_agent.Prelude.{
  ℕ, ◌+◌, ◌/◌, ◌≡◌, String, Bool, true, false, not, ◌&&◌, ◌||◌, ◌⊎◌, inl, inr, Option, none, some,
  List, [], ◌∷◌, str_eq, if◌then◌else◌,
}
use chaosblade_box_agent.Prelude.Dict.{Dict, get}
use chaosblade_box_agent.Prelude.Strconv.{format_int, parse_int}
use chaosblade_box_agent.Tools.Auth.{Keys, get_access_key, get_secure_key, sign, auth}
use chaosblade_box_agent.Transport.Response.{
  Response, return_fail, invalid_timestamp, forbidden, token_not_found, encode_error,
}
use chaosblade_box_agent.Transport.Request.{Request, add_header, add_param}

abbrev pub sign_data_key : String
sign_data_key = "sd"

abbrev pub access_key_key : String
access_key_key = "ak"

abbrev pub sign_key : String
sign_key = "sn"

abbrev pub timestamp_key : String
timestamp_key = "ts"

-- The pair `(response, ok)`: `nil, true`, or a response and false.
pub data Verdict : Type 0 where
  pass : Verdict
  refuse : Response → Verdict

-- the two `doRequestInterceptor`s, and the chain that each of them starts
pub data DoInterceptor : Type 0 where
  auth_interceptor timestamp_interceptor : DoInterceptor

pub data Chain : Type 0 where
  nil : Chain
  link : DoInterceptor → Chain → Chain

-- `getCurrentTimeInMillis`, of what `time.Now().UnixNano()` returns
unfoldable pub get_current_time_in_millis : ℕ → ℕ
get_current_time_in_millis unix_nano = unix_nano / 1000

-- `timestampInterceptor.doHandler`
unfoldable pub timestamp_do_handler : Request → Verdict
timestamp_do_handler request =
    let request_time = get request.params timestamp_key in
    if str_eq request_time ""
    then refuse (return_fail invalid_timestamp [])
    else elim (parse_int request_time) [
      | none ↦ refuse (return_fail invalid_timestamp [])
      | some n ↦ pass
    ]

-- `timestampInterceptor.doInvoker`
unfoldable pub timestamp_do_invoker : ℕ → Request → Request × Verdict
unfolding get_current_time_in_millis
timestamp_do_invoker unix_nano request =
    (add_param request timestamp_key (format_int (get_current_time_in_millis unix_nano)), pass)

module _ (sum256 : String → List ℕ) (marshal : Dict String → String ⊎ String) where
  -- what is signed: the header, or else the encoded parameters
  unfoldable pub sign_data_of : Request → String ⊎ String
  sign_data_of request =
      let sign_data = get request.headers sign_data_key in
      if str_eq sign_data "" then marshal request.params else inl sign_data

  -- `authInterceptor.doHandler`
  unfoldable pub auth_do_handler : Keys → Request → Verdict
  unfolding sign_data_of auth get_access_key
  auth_do_handler keys request =
      let signature = get request.headers sign_key in
      let access_key = get request.headers access_key_key in
      if str_eq signature ""
      then refuse (return_fail forbidden ("missing sign" ∷ []))
      else if not (str_eq access_key "") && not (str_eq access_key (get_access_key keys))
      then refuse (return_fail forbidden ("accessKey not matched" ∷ []))
      else elim (sign_data_of request) [
        | inr err ↦ refuse (return_fail forbidden ("invalid request parameters" ∷ []))
        | inl sign_data ↦
            if not (auth sum256 keys signature sign_data)
            then refuse (return_fail forbidden ("illegal request" ∷ []))
            else pass
      ]

  -- `authInterceptor.doInvoker`
  unfoldable pub auth_do_invoker : Keys → Request → Request × Verdict
  unfolding sign_data_of get_access_key get_secure_key
  auth_do_invoker keys request =
      let access_key = get_access_key keys in
      let secure_key = get_secure_key keys in
      if str_eq access_key "" || str_eq secure_key ""
      then (request, refuse (return_fail token_not_found []))
      else let request = add_header request access_key_key access_key in
        elim (sign_data_of request) [
          | inr err ↦ (request, refuse (return_fail encode_error (err ∷ [])))
          | inl sign_data ↦ (add_header request sign_key (sign sum256 keys sign_data), pass)
        ]

  unfoldable pub do_handler : DoInterceptor → Keys → Request → Verdict
  unfolding auth_do_handler timestamp_do_handler
  do_handler auth_interceptor keys request = auth_do_handler keys request
  do_handler timestamp_interceptor keys request = timestamp_do_handler request

  unfoldable pub do_invoker : DoInterceptor → Keys → ℕ → Request → Request × Verdict
  unfolding auth_do_invoker timestamp_do_invoker
  do_invoker auth_interceptor keys unix_nano request = auth_do_invoker keys request
  do_invoker timestamp_interceptor keys unix_nano request = timestamp_do_invoker unix_nano request

  -- `Handle`: the interceptor's own test, then the chain behind it
  unfoldable pub handle : Chain → Keys → Request → Verdict
  unfolding do_handler
  handle nil keys request = pass
  handle (link interceptor chain) keys request = elim (do_handler interceptor keys request) [
    | refuse response ↦ refuse response
    | pass ↦ handle chain keys request
  ]

  -- `Invoke`, which changes the request on its way
  unfoldable pub invoke : Chain → Keys → ℕ → Request → Request × Verdict
  unfolding do_invoker
  invoke nil keys unix_nano request = (request, pass)
  invoke (link interceptor chain) keys unix_nano request =
      let (request', verdict) = do_invoker interceptor keys unix_nano request in
      elim verdict [
        | refuse response ↦ (request', refuse response)
        | pass ↦ invoke chain keys unix_nano request'
      ]

-- `BuildInterceptor`: the timestamp first, then the signature
unfoldable pub build_interceptor : Chain
build_interceptor = link timestamp_interceptor (link auth_interceptor nil)
