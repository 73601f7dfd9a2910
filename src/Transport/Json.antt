-- ===== src/Transport/Json.antt =====
-- The values that `json.Unmarshal` puts behind an `interface{}`. A number is kept as its text, and
-- `null` is also the nil interface.
use chaosblade_box_agent.Prelude.{String, Bool, Option, none, some, str_eq, if◌then◌else◌}

mutual
  pub data Json : Type 0 where
    null : Json
    bool : Bool → Json
    num : String → Json
    str : String → Json
    arr : Items → Json
    obj : Fields → Json

  pub data Items : Type 0 where
    nil : Items
    cons : Json → Items → Items

  pub data Fields : Type 0 where
    end : Fields
    field : String → Json → Fields → Fields

-- `v, ok := m[k]` on a `map[string]interface{}`
unfoldable pub lookup_field : Fields → String → Option Json
lookup_field end k = none
lookup_field (field j v fs) k = if str_eq j k then some v else lookup_field fs k

-- `v, ok := x.(string)`
abbrev pub as_string : Json → Option String
as_string (str s) = some s
as_string _ = none

-- `v, ok := x.(map[string]interface{})`
abbrev pub as_map : Json → Option Fields
as_map (obj fs) = some fs
as_map _ = none

-- `v, ok := x.([]interface{})`
abbrev pub as_slice : Json → Option Items
as_slice (arr vs) = some vs
as_slice _ = none

-- `v, ok := x.(bool)`
abbrev pub as_bool : Json → Option Bool
as_bool (bool b) = some b
as_bool _ = none
