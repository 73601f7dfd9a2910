-- ===== src/Transport/Tests.antt =====
-- transport on small inputs.
use chaosblade_box_agent.Prelude.{
  Option, ◌≡◌, ◌≢◌, ◌↔◌, refl, ◌⊎◌, inl, inr, arith, String, true, false, none, some, [], ◌∷◌,
}
use chaosblade_box_agent.Prelude.Dict.{lookup, insert, get, IsMap}
use chaosblade_box_agent.Prelude.Strconv.{parse_int}
use chaosblade_box_agent.Transport.Response.{Response, return_fail, invalid_timestamp, forbidden}
use chaosblade_box_agent.Transport.Request.{Request, get_body}
use chaosblade_box_agent.Transport.Request.Body.{first_of, get_body-lookup}
use chaosblade_box_agent.Transport.Interceptor.{
  pass, refuse, handle, invoke as chain_invoke, build_interceptor, timestamp_key,
}
use chaosblade_box_agent.Transport.Interceptor.Handles.{Admitted, handle_iff, handle_refusal}
use chaosblade_box_agent.Transport.Interceptor.RoundTrip.{handle-invoke}
use chaosblade_box_agent.Transport.Client.{answered, failed, invoke}
use chaosblade_box_agent.Transport.Samples.{
  some_sum, some_marshal, some_keys, some_request, some_wire, some_uri, now,
}
use chaosblade_box_agent.Transport.Client.Sends.{AtMostOne, invoke_sends}

handle-invoke_example :
    (request' : Request) × (chain_invoke some_sum some_marshal build_interceptor some_keys now
        some_request
      ≡ (request', pass))
    × (handle some_sum some_marshal build_interceptor some_keys request' ≡ pass)
handle-invoke_example =
    handle-invoke some_sum some_marshal some_keys now some_request (λ e. cc) (λ e. cc) (omega arith)
      (λ s e. cc) (λ m. ("{}", refl))

handle_iff_example :
    (handle some_sum some_marshal build_interceptor some_keys some_request ≡ pass)
    ↔ Admitted some_sum some_marshal some_keys some_request
handle_iff_example = handle_iff some_sum some_marshal some_keys some_request

unsigned_refused :
    handle some_sum some_marshal build_interceptor some_keys some_request
    ≡ refuse (return_fail forbidden ("missing sign" ∷ []))
unfolding handle build_interceptor get parse_int
unsigned_refused = refl

handle_refusal_example :
    ((return_fail forbidden ("missing sign" ∷ [])).success ≡ false)
    × ((((return_fail forbidden ("missing sign" ∷ [])).code ≡ invalid_timestamp)
          × (parse_int (get some_request.params timestamp_key) ≡ none))
        ⊎ (((return_fail forbidden ("missing sign" ∷ [])).code ≡ forbidden)
            × (parse_int (get some_request.params timestamp_key) ≢ none)))
handle_refusal_example =
    handle_refusal some_sum some_marshal some_keys some_request
      (return_fail forbidden ("missing sign" ∷ [])) unsigned_refused

invoke_sends_example :
    let (sent', invoked) = invoke some_wire [] some_uri some_request true in
    ((response : Response) × (text : String) × (result : String) × (invoked ≡ answered response)
      × (some_wire.do_invoker (record some_uri { request_id = "r1" }) text ≡ inl result)
      × (some_wire.decode_response result ≡ inr response)
      × (sent' ≡ (record some_uri { request_id = "r1" }, text) ∷ []))
    ⊎ ((response : Option Response) × (err : String) × (invoked ≡ failed response err)
        × AtMostOne some_wire [] some_uri sent')
invoke_sends_example = invoke_sends some_wire [] some_uri some_request true

distinct_headers : IsMap some_request.headers
unfolding lookup
distinct_headers = (refl, (refl, tt))

distinct_params : IsMap some_request.params
unfolding lookup
distinct_params = (refl, (refl, tt))

get_body-lookup_example :
    (lookup (get_body some_request) "v"
      ≡ first_of (lookup some_request.params "v") (lookup some_request.headers "v"))
    × IsMap (get_body some_request)
get_body-lookup_example = get_body-lookup some_request "v" distinct_headers distinct_params

get_body_test : lookup (get_body some_request) "v" ≡ some "2"
unfolding get_body lookup insert
get_body_test = refl
