-- ===== src/Web/Tests.antt =====
-- web/api and web/server on small inputs.
use chaosblade_box_agent.Prelude.{
  ℕ, suc, ◌≡◌, ◌⊎◌, inl, inr, false, none, some, [], ◌∷◌, str_eq, if◌then◌else◌, returned,
}
use chaosblade_box_agent.Prelude.Dict.{Dict, lookup}
use chaosblade_box_agent.Transport.Samples.{
  some_keys, some_sum, some_marshal, some_request, ok_response,
}
use chaosblade_box_agent.Web.Api.{ServerRequestHandler, serve, register_handler}
use chaosblade_box_agent.Web.Admits.{Reaches, serve_admits, lookup-register_handler}

-- a handler that counts the requests it gets
abbrev counting : ServerRequestHandler ℕ
counting = record {
  ctx_done = false;
  keys = some_keys;
  sum256 = some_sum;
  marshal = some_marshal;
  decode = λ text. inr some_request;
  encode = λ response. inl response.error;
  handler = λ n req. (suc n, returned ok_response);
}

serve_admits_example :
    ((serve counting 3 "{}").0 ≡ 3)
    ⊎ ((r : Reaches counting "{}") × ((serve counting 3 "{}").0 ≡ (counting.handler 3 r.req).0))
serve_admits_example = serve_admits counting 3 "{}"

abbrev table : Dict ℕ
table = ("ping", 1) ∷ []

lookup-register_handler_example :
    ((register_handler table "uninstall" (some 2)).1 ≡ none)
    × (lookup (register_handler table "uninstall" (some 2)).0 "ping" ≡ (
        if str_eq "uninstall" "ping"
        then elim (lookup table "uninstall") [ none ↦ some 2 | some old ↦ some old ]
        else lookup table "ping"))
lookup-register_handler_example = lookup-register_handler table "uninstall" "ping" 2 (λ e. cc)
