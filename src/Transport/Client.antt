-- ===== src/Transport/Client.antt =====
-- transport/transport.go: `TransportClient.Invoke`. The channel, the encoder of a request, the
-- decoder of an answer, the clock and the generator of request ids are parameters.
pub mod Sends
use chaosblade_box_agent.Prelude.{
  ℕ, String, Bool, ◌⊎◌, inl, inr, Option, none, some, List, [], ◌∷◌, if◌then◌else◌,
}
use chaosblade_box_agent.Prelude.Dict.{Dict}
use chaosblade_box_agent.Tools.Auth.{Keys}
use chaosblade_box_agent.Transport.Response.{Response}
use chaosblade_box_agent.Transport.Request.{Request, add_header}
use chaosblade_box_agent.Transport.Uri.{Uri}
use chaosblade_box_agent.Transport.Interceptor.{
  Verdict, pass, refuse, invoke as invoke_chain, build_interceptor,
}

-- What one call of `Invoke` meets: the keys in force, the clock, the id that `GetUUID` draws, and the
-- code that is not the client's. An error is its message, on the right.
pub record Wire : Type 0 where
  pub keys : Keys
  pub unix_nano : ℕ
  pub uuid : String
  pub sum256 : String → List ℕ
  pub marshal : Dict String → String ⊎ String
  pub marshal_request : Request → String ⊎ String
  pub do_invoker : Uri → String → String ⊎ String
  pub decode_response : String → String ⊎ Response

-- `(*Response, error)`: an answer and a nil error, or a response that may be nil and an error
pub data Invoked : Type 0 where
  answered : Response → Invoked
  failed : Option Response → String → Invoked

-- what was handed to the channel, the newest first
abbrev pub Sent : Type 0
Sent = List (Uri × String)

-- `Invoke` behind its interceptor
unfoldable pub transmit : Wire → Sent → Uri → Request → Sent × Invoked
unfolding add_header
transmit wire sent uri request =
    let uri = record uri { request_id = wire.uuid } in
    elim (wire.marshal_request (add_header request "rid" wire.uuid)) [
      | inr err ↦ (sent, failed none err)
      | inl text ↦ elim (wire.do_invoker uri text) [
        | inr err ↦ ((uri, text) ∷ sent, failed none err)
        | inl result ↦ elim (wire.decode_response result) [
          | inl err ↦ ((uri, text) ∷ sent, failed none err)
          | inr response ↦ ((uri, text) ∷ sent, answered response)
        ]
      ]
    ]

-- `Invoke`
unfoldable pub invoke : Wire → Sent → Uri → Request → Bool → Sent × Invoked
unfolding transmit
invoke wire sent uri request need_interceptor =
    if need_interceptor
    then (let (request', verdict) =
          invoke_chain wire.sum256 wire.marshal build_interceptor wire.keys wire.unix_nano
            request in
        elim verdict [
          | refuse response ↦ (sent, failed (some response) response.error)
          | pass ↦ transmit wire sent uri request'
        ])
    else transmit wire sent uri request
