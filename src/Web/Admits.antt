-- ===== src/Web/Admits.antt =====
-- Which requests reach a handler.
use chaosblade_box_agent.Prelude.{
  ◌≡◌, ◌≢◌, refl, ap, ◌∙◌, String, true, false, ◌⊎◌, inl, inr, none, some, if◌then◌else◌, Outcome,
  returned, Outcome-cases, arith, Bool-cases, Sum-cases, str_eq, eq_iff, Option-cases,
}
use chaosblade_box_agent.Prelude.Dict.{Dict, lookup, lookup-insert}
use chaosblade_box_agent.Transport.Response.{Response}
use chaosblade_box_agent.Transport.Request.{Request}
use chaosblade_box_agent.Transport.Interceptor.{handle as handle_chain, build_interceptor}
use chaosblade_box_agent.Transport.Interceptor.Handles.{Verdict-cases, Admitted, handle_iff}
use chaosblade_box_agent.Web.Api.{ServerRequestHandler, intercept, serve, register_handler}

-- a request that is decoded, and that the interceptor's conditions hold of
pub record Reaches {ℓ} {S : Type ℓ} (server : ServerRequestHandler S) (text : String) : Type 0 where
  pub is_open : server.ctx_done ≡ false
  pub req : Request
  pub decoded : server.decode text ≡ inr req
  pub admitted : Admitted server.sum256 server.marshal server.keys req

module _ {ℓ} {S : Type ℓ} (server : ServerRequestHandler S) where
  intercept-cases :
      (s : S) (req : Request)
      → (Admitted server.sum256 server.marshal server.keys req
          × (intercept server s req ≡ server.handler s req))
        ⊎ ((response : Response) × (intercept server s req ≡ (s, returned response)))
  unfolding intercept
  intercept-cases s req =
      elim (Verdict-cases
        (handle_chain server.sum256 server.marshal build_interceptor server.keys req)) [
          | inl passes ↦ inl (
            (handle_iff server.sum256 server.marshal server.keys req).0 passes,
            rw (passes, intercept) refl,
          )
          | inr (response, refused) ↦ inr (response, rw (refused, intercept) refl)
        ]

  serve_closed : (s : S) (text : String) → server.ctx_done ≡ true → (serve server s text).0 ≡ s
  unfolding serve
  serve_closed s text closed = rw closed refl

  serve_undecoded :
      (s : S) (text err : String)
      → server.ctx_done ≡ false
      → server.decode text ≡ inl err
      → (serve server s text).0 ≡ s
  unfolding serve
  serve_undecoded s text err is_open bad = rw (is_open, bad) refl

  serve-intercept :
      (s : S) (text : String) (req : Request)
      → server.ctx_done ≡ false
      → server.decode text ≡ inr req
      → (serve server s text).0 ≡ (intercept server s req).0
  unfolding serve
  serve-intercept s text req is_open decoded =
      rw (is_open, decoded)
        (elim (Outcome-cases (intercept server s req).1) [
          | inl (response, e) ↦ rw e refl
          | inr e ↦ rw e refl
        ])

-- The server's state behind a request is the state before it, or that of the handler run on a request
-- that was decoded and that the interceptor's conditions hold of.
pub serve_admits {ℓ} :
    {S : Type ℓ} (server : ServerRequestHandler S) (s : S) (text : String)
    → ((serve server s text).0 ≡ s)
      ⊎ ((r : Reaches server text) × ((serve server s text).0 ≡ (server.handler s r.req).0))
serve_admits {S = S} server s text = elim (Bool-cases server.ctx_done) [
  | inl closed ↦ inl (serve_closed server s text closed)
  | inr is_open ↦ elim (Sum-cases (server.decode text)) [
    | inl (err, bad) ↦ inl (serve_undecoded server s text err is_open bad)
    | inr (req, decoded) ↦
        let same = serve-intercept server s text req is_open decoded in
        elim (intercept-cases server s req) [
          | inl (admitted, e) ↦ inr (
            record { is_open = is_open; req = req; decoded = decoded; admitted = admitted },
            same ∙ ap (λ (r : S × Outcome Response). r.0) e,
          )
          | inr (response, e) ↦ inl (same ∙ ap (λ (r : S × Outcome Response). r.0) e)
        ]
  ]
]

-- A handler is registered under a name that is not blank and free, a name that is taken keeps the
-- handler that it has, and the other names keep theirs.
pub lookup-register_handler {ℓ} :
    {H : Type ℓ} (handlers : Dict H) (name other : String) (h : H)
    → name ≢ ""
    → ((register_handler handlers name (some h)).1 ≡ none)
      × (lookup (register_handler handlers name (some h)).0 other ≡ (
          if str_eq name other
          then elim (lookup handlers name) [ none ↦ some h | some old ↦ some old ]
          else lookup handlers other))
unfolding register_handler
lookup-register_handler handlers name other h named = elim (Option-cases (lookup handlers name)) [
  | inl free ↦
      ground (arith, eq_iff name "", eq_iff name other, lookup-insert handlers name other h)
  | inr (old, taken) ↦ ground (arith, eq_iff name "", eq_iff name other)
]
