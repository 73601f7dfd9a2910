-- ===== src/Transport/Request/Body.antt =====
-- What `GetBody` of transport/request.go puts into the body.
use chaosblade_box_agent.Prelude.{◌≡◌, refl, String, Option, none, some, [], ◌∷◌, arith, eq_iff}
use chaosblade_box_agent.Prelude.Dict.{Dict, lookup, insert, lookup-insert, IsMap, insert-IsMap}
use chaosblade_box_agent.Transport.Request.{Request, copy_into, get_body}

-- the first value, or else the second
abbrev pub first_of : Option String → Option String → Option String
first_of none w = w
first_of (some v) w = some v

lookup-copy_into :
    (body m : Dict String) (k : String)
    → IsMap m
    → lookup (copy_into body m) k ≡ first_of (lookup m k) (lookup body k)
unfolding copy_into lookup
lookup-copy_into body [] k h = refl
lookup-copy_into body ((j, v) ∷ m) k (fresh, h) =
    ground (arith, eq_iff j k, lookup-copy_into (insert body j v) m k h, lookup-insert body j k v)

lookup-nil : (k : String) → lookup {V = String} [] k ≡ none
unfolding lookup
lookup-nil k = refl

copy_into-IsMap : (body m : Dict String) → IsMap body → IsMap (copy_into body m)
unfolding copy_into
copy_into-IsMap body [] h = h
copy_into-IsMap body ((j, v) ∷ m) h = copy_into-IsMap (insert body j v) m (insert-IsMap body j v h)

-- In a request whose two maps hold no name twice, the body holds each parameter, and each header
-- whose name is no parameter's, and nothing else; no name stands in it twice.
pub get_body-lookup :
    (request : Request) (k : String)
    → IsMap request.headers
    → IsMap request.params
    → (lookup (get_body request) k ≡ first_of (lookup request.params k) (lookup request.headers k))
      × IsMap (get_body request)
unfolding get_body
get_body-lookup request k headers params = (
  ground (
    arith,
    lookup-copy_into (copy_into [] request.headers) request.params k params,
    lookup-copy_into [] request.headers k headers,
    lookup-nil k,
  ),
  copy_into-IsMap (copy_into [] request.headers) request.params
      (copy_into-IsMap [] request.headers tt),
)
