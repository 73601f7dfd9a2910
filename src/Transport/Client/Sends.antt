-- ===== src/Transport/Client/Sends.antt =====
-- What `Invoke` of transport/transport.go hands to the channel.
use chaosblade_box_agent.Prelude.{
  Option, ◌≡◌, refl, ◌⊎◌, inl, inr, String, Bool, true, false, some, [], ◌∷◌, arith, Sum-cases,
}
use chaosblade_box_agent.Transport.Response.{Response, return_fail, token_not_found}
use chaosblade_box_agent.Transport.Request.{Request, add_header}
use chaosblade_box_agent.Transport.Uri.{Uri}
use chaosblade_box_agent.Transport.Interceptor.{Verdict, invoke as invoke_chain, build_interceptor}
use chaosblade_box_agent.Transport.Interceptor.Handles.{Verdict-cases}
use chaosblade_box_agent.Transport.Interceptor.RoundTrip.{invoke_no_keys}
use chaosblade_box_agent.Transport.Client.{Wire, Invoked, answered, failed, Sent, transmit, invoke}

pub Invoked-cases :
    (i : Invoked)
    → ((response : Response) × (i ≡ answered response))
      ⊎ ((response : Option Response) × (err : String) × (i ≡ failed response err))
Invoked-cases (answered response) = inl (response, refl)
Invoked-cases (failed response err) = inr (response, err, refl)

-- that a call of `Invoke` was answered with a success
abbrev pub Succeeds : Invoked → Type 0
Succeeds invoked = (response : Response) × (invoked ≡ answered response) × (response.success ≡ true)

-- Without an access key or a secure key an intercepted call sends nothing and fails with the
-- refusal, whose code is TokenNotFound.
invoke_unregistered :
    (wire : Wire) (sent : Sent) (uri : Uri) (request : Request)
    → (wire.keys.local_access_key ≡ "") ⊎ (wire.keys.local_secure_key ≡ "")
    → invoke wire sent uri request true ≡ (
      sent,
      failed (some (return_fail token_not_found [])) (return_fail token_not_found []).error,
    )
unfolding invoke
invoke_unregistered wire sent uri request h =
    ground (arith, invoke_no_keys wire.sum256 wire.marshal wire.keys wire.unix_nano request h)

-- the calls before, and at most one more, under the address asked for and this call's id
abbrev pub AtMostOne : Wire → Sent → Uri → Sent → Type 0
AtMostOne wire sent uri sent' =
    (sent' ≡ sent)
    ⊎ ((text : String) × (sent' ≡ (record uri { request_id = wire.uuid }, text) ∷ sent))

transmit-AtMostOne :
    (wire : Wire) (sent : Sent) (uri : Uri) (request : Request)
    → AtMostOne wire sent uri (transmit wire sent uri request).0
unfolding transmit
transmit-AtMostOne wire sent uri request =
    elim (Sum-cases (wire.marshal_request (add_header request "rid" wire.uuid))) [
      | inr (err, e) ↦ inl (ground arith)
      | inl (text, e) ↦ inr (text, ground arith)
    ]

transmit-answered :
    (wire : Wire) (sent : Sent) (uri : Uri) (request : Request) (response : Response)
    → (transmit wire sent uri request).1 ≡ answered response
    → (text : String) × (result : String) × (wire.do_invoker
          (record uri { request_id = wire.uuid })
          text
        ≡ inl result)
      × (wire.decode_response result ≡ inr response)
      × ((transmit wire sent uri request).0 ≡ (record uri { request_id = wire.uuid }, text) ∷ sent)
unfolding transmit
transmit-answered wire sent uri request response e =
    elim (Sum-cases (wire.marshal_request (add_header request "rid" wire.uuid))) [
      | inr (err, encoded) ↦ ground arith
      | inl (text, encoded) ↦
          elim (Sum-cases (wire.do_invoker (record uri { request_id = wire.uuid }) text)) [
            | inr (err, called) ↦ ground arith
            | inl (result, called) ↦ (text, result, called, ground arith, ground arith)
          ]
    ]

invoke-both :
    (wire : Wire) (sent : Sent) (uri : Uri) (request : Request) (need_interceptor : Bool)
    → AtMostOne wire sent uri (invoke wire sent uri request need_interceptor).0
      × ((response : Response)
          → (invoke wire sent uri request need_interceptor).1 ≡ answered response
          → (text : String) × (result : String) × (wire.do_invoker
                (record uri { request_id = wire.uuid })
                text
              ≡ inl result)
            × (wire.decode_response result ≡ inr response)
            × ((invoke wire sent uri request need_interceptor).0
                ≡ (record uri { request_id = wire.uuid }, text) ∷ sent))
unfolding invoke
invoke-both wire sent uri request false =
    (transmit-AtMostOne wire sent uri request, transmit-answered wire sent uri request)
invoke-both wire sent uri request true = elim (Verdict-cases chained.1) [
  | inl passes ↦
      rw passes
        (transmit-AtMostOne wire sent uri chained.0, transmit-answered wire sent uri chained.0)
  | inr (response, refused) ↦ rw refused (inl refl, λ r e. absurd (ground arith))
]
  where
    chained : Request × Verdict
    chained =
        invoke_chain wire.sum256 wire.marshal build_interceptor wire.keys wire.unix_nano request

-- A call hands at most one message to the channel, to the address asked for and under the id drawn.
-- When the call is answered there is that message, and the answer is what the channel's reply to it
-- decodes to.
pub invoke_sends :
    (wire : Wire) (sent : Sent) (uri : Uri) (request : Request) (need_interceptor : Bool)
    → let (sent', invoked) = invoke wire sent uri request need_interceptor in
      ((response : Response) × (text : String) × (result : String) × (invoked ≡ answered response)
        × (wire.do_invoker (record uri { request_id = wire.uuid }) text ≡ inl result)
        × (wire.decode_response result ≡ inr response)
        × (sent' ≡ (record uri { request_id = wire.uuid }, text) ∷ sent))
      ⊎ ((response : Option Response) × (err : String) × (invoked ≡ failed response err)
          × AtMostOne wire sent uri sent')
invoke_sends wire sent uri request need_interceptor =
    let (once, answers) = invoke-both wire sent uri request need_interceptor in
    elim (Invoked-cases (invoke wire sent uri request need_interceptor).1) [
      | inl (response, e) ↦
          let (text, result, called, decoded, left) = answers response e in
          inl (response, text, result, e, called, decoded, left)
      | inr (response, err, e) ↦ inr (response, err, e, once)
    ]
