-- ===== src/Web/Api.antt =====
-- web/api/handler.go, web/server/http.go and web/server/gateway.go. The handler behind the interceptor
-- is a parameter, with the state that it changes, and so are the decoder and the encoder of JSON.
use chaosblade_box_agent.Prelude.{
  ℕ, String, Bool, ◌⊎◌, inl, inr, Option, none, some, List, [], ◌∷◌, str_eq, if◌then◌else◌, Outcome,
  returned, panic, is_some,
}
use chaosblade_box_agent.Prelude.Dict.{Dict, lookup, insert}
use chaosblade_box_agent.Tools.Auth.{Keys}
use chaosblade_box_agent.Transport.Response.{Response, return_fail, handler_closed}
use chaosblade_box_agent.Transport.Request.{Request}
use chaosblade_box_agent.Transport.Interceptor.{
  pass, refuse, handle as handle_chain, build_interceptor,
}
use Prim.Native.String.{◌++◌ as str_append}

-- `ServerRequestHandler` and what it calls: `ctx_done` says whether its context is done, and `decode`
-- and `encode` are `json.Unmarshal` and `json.Marshal`, an error being its message.
pub record ServerRequestHandler {ℓ} (S : Type ℓ) : Type ℓ where
  pub ctx_done : Bool
  pub keys : Keys
  pub sum256 : String → List ℕ
  pub marshal : Dict String → String ⊎ String
  pub decode : String → String ⊎ Request
  pub encode : Response → String ⊎ String
  pub handler : S → Request → S × Outcome Response

module _ {ℓ} {S : Type ℓ} (server : ServerRequestHandler S) where
  -- the encoding at the end: the text, or an error on the right
  unfoldable pub encode_response : Response → String ⊎ String
  encode_response response = server.encode response

  -- the interceptor, and the handler behind it
  unfoldable pub intercept : S → Request → S × Outcome Response
  intercept s req =
      elim (handle_chain server.sum256 server.marshal build_interceptor server.keys req) [
        | refuse response ↦ (s, returned response)
        | pass ↦ server.handler s req
      ]

  -- `Handle`
  unfoldable pub serve : S → String → S × Outcome (String ⊎ String)
  unfolding intercept encode_response
  serve s request =
      if server.ctx_done
      then (s, returned (encode_response (return_fail handler_closed [])))
      else elim (server.decode request) [
        | inl err ↦ (s, returned (inr err))
        | inr req ↦
            let (s', outcome) = intercept s req in
            elim outcome [
              | panic ↦ (s', panic)
              | returned response ↦ (s', returned (encode_response response))
            ]
      ]

  -- The function that `HttpServer.RegisterHandler` registers: what it writes, if anything. `form` is
  -- what `ParseForm` makes of the request, none for an error; `request.Form["body"][0]` panics where
  -- there is no such value.
  unfoldable pub serve_http : S → String → Option (Dict (List String)) → S × Outcome (Option String)
  unfolding lookup serve
  serve_http s handler_name none = (s, returned none)
  serve_http s handler_name (some form) = elim (lookup form "body") [
    | none ↦ (s, panic)
    | some values ↦ elim values [
      | [] ↦ (s, panic)
      | body ∷ more ↦
          let (s', outcome) = serve s body in
          elim outcome [
            | panic ↦ (s', panic)
            | returned result ↦ elim result [
              | inl text ↦ (s', returned (some text))
              | inr err ↦ (
                s',
                returned (
                    some (
                      str_append "handle "
                        (str_append handler_name (str_append " request err, " err)))),
              )
            ]
          ]
    ]
  ]

-- `GatewayServer.RegisterHandler`, on the table `web.Handlers`; none for a nil handler, and an error's
-- message or none
unfoldable pub register_handler {ℓ} :
    {H : Type ℓ} → Dict H → String → Option H → Dict H × Option String
unfolding lookup insert
register_handler handlers handler_name handler =
    if str_eq handler_name ""
    then (handlers, some "handlerName can not be blank")
    else elim handler [
      | none ↦ (handlers, some "handler can not be null")
      | some h ↦
          if is_some (lookup handlers handler_name)
          then (handlers, none)
          else (insert handlers handler_name h, none)
    ]
