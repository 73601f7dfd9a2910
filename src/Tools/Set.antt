-- ===== src/Tools/Set.antt =====
-- pkg/tools/set.go: a set is the list of the keys of its map, in the order in which `range` meets them.
use Prim.Native.Nat.{ℕ}
use chaosblade_box_agent.Prelude.{
  ◌≡◌, refl, arith, String, Bool, true, false, List, [], ◌∷◌, length, str_eq, if◌then◌else◌, eq_iff,
}

-- `NewSet`, and what `Clear` leaves
abbrev pub new_set : List String
new_set = []

-- `Contains`
unfoldable pub contains : List String → String → Bool
contains [] item = false
contains (key ∷ set) item = let rest = contains set item in if str_eq key item then true else rest

-- `Add`
unfoldable pub add : List String → String → List String
unfolding contains
add set item = if contains set item then set else item ∷ set

-- `Remove`
unfoldable pub remove : List String → String → List String
remove [] item = []
remove (key ∷ set) item = let rest = remove set item in if str_eq key item then rest else key ∷ rest

-- `Length`
unfoldable pub set_length : List String → ℕ
set_length set = length set

-- `Keys` and `StringKeys`
unfoldable pub string_keys : List String → List String
string_keys set = set

set_test :
    (contains (add (add new_set "a") "a") "a" ≡ true) × (set_length (add (add new_set "a") "a") ≡ 1)
unfolding contains add set_length
set_test = (refl, refl)

contains-add :
    (set : List String) (item key : String)
    → contains (add set item) key ≡ (if str_eq item key then true else contains set key)
unfolding add contains
contains-add [] item key = refl
contains-add (k ∷ set) item key =
    ground (arith, eq_iff k item, eq_iff k key, eq_iff item key, contains-add set item key)

contains-remove :
    (set : List String) (item key : String)
    → contains (remove set item) key ≡ (if str_eq item key then false else contains set key)
unfolding remove contains
contains-remove [] item key = ground arith
contains-remove (k ∷ set) item key =
    ground (arith, eq_iff k item, eq_iff k key, eq_iff item key, contains-remove set item key)
