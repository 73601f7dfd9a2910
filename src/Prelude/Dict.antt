-- ===== src/Prelude/Dict.antt =====
-- A Go `map[string]V`: an association list in which a later write to a key takes the place of the
-- earlier one. The order of the entries stands for the order in which `range` meets them; Go leaves
-- that order open, and so do the theorems, which hold for every list.
use Prim.Native.String.{String}
use mathlib.Core.Path.{◌≡◌, refl}
use mathlib.Core.Option.{Option, none, some}
use mathlib.Core.List.{List, [], ◌∷◌}
use native.Mathlib.Omega.{arith}
use text.Mathlib.TextEquality.{eq_iff}
use mathlib.Core.Logic.{inl, inr}
use chaosblade_box_agent.Prelude.Tests.{str_eq, Bool-cases, if◌then◌else◌}

abbrev pub Dict {ℓ} : Type ℓ → Type ℓ
Dict V = List (String × V)

module _ {ℓ} {V : Type ℓ} where
  -- v, ok := m[k]
  unfoldable pub lookup : Dict V → String → Option V
  lookup [] k = none
  lookup ((j, v) ∷ m) k = if str_eq j k then some v else lookup m k

  -- m[k] = v
  unfoldable pub insert : Dict V → String → V → Dict V
  insert [] k v = (k, v) ∷ []
  insert ((j, w) ∷ m) k v = if str_eq j k then (k, v) ∷ m else (j, w) ∷ insert m k v

  -- delete(m, k)
  unfoldable pub delete : Dict V → String → Dict V
  delete [] k = []
  delete ((j, w) ∷ m) k = let rest = delete m k in if str_eq j k then rest else (j, w) ∷ rest

  pub lookup-insert :
      (m : Dict V) (k j : String) (v : V)
      → lookup (insert m k v) j ≡ (if str_eq k j then some v else lookup m j)
  unfolding lookup insert
  lookup-insert [] k j v = refl
  lookup-insert ((i, w) ∷ m) k j v =
      ground (arith, eq_iff k j, eq_iff i k, eq_iff i j, lookup-insert m k j v)

  pub lookup-delete :
      (m : Dict V) (k j : String)
      → lookup (delete m k) j ≡ (if str_eq k j then none else lookup m j)
  unfolding lookup delete
  lookup-delete [] k j = ground arith
  lookup-delete ((i, w) ∷ m) k j =
      ground (arith, lookup-delete m k j, eq_iff i k, eq_iff i j, eq_iff k j)

-- m[k] of a `map[string]string`, which is "" where the key is missing
unfoldable pub get : Dict String → String → String
unfolding lookup
get m k = elim (lookup m k) [ none ↦ "" | some v ↦ v ]

pub get-insert :
    (m : Dict String) (k j v : String) → get (insert m k v) j ≡ (if str_eq k j then v else get m j)
unfolding get
get-insert m k j v = ground (arith, lookup-insert m k j v)

pub ruleset dict_laws = (lookup-insert, lookup-delete, get-insert)

module _ {ℓ} {V : Type ℓ} where
  -- A list that stands for a map: no key stands twice. What Go's operations build is one.
  abbrev pub IsMap : Dict V → Type ℓ
  IsMap [] = Unit
  IsMap ((k, v) ∷ m) = (lookup m k ≡ none) × IsMap m

  pub insert-IsMap : (m : Dict V) (k : String) (v : V) → IsMap m → IsMap (insert m k v)
  unfolding insert
  insert-IsMap [] k v h = (unfold lookup in refl, tt)
  insert-IsMap ((j, w) ∷ m) k v (fresh, h) = elim (Bool-cases (str_eq j k)) [
    | inl same ↦ let e : j ≡ k = (eq_iff j k).0 same in rw same (rw e at fresh, h)
    | inr other ↦
        rw other
          (ground (arith, lookup-insert m k j v, eq_iff k j, eq_iff j k), insert-IsMap m k v h)
  ]

  lookup-delete-none :
      (m : Dict V) (k j : String) → lookup m j ≡ none → lookup (delete m k) j ≡ none
  lookup-delete-none m k j h = ground (arith, lookup-delete m k j)

  pub delete-IsMap : (m : Dict V) (k : String) → IsMap m → IsMap (delete m k)
  unfolding delete
  delete-IsMap [] k h = tt
  delete-IsMap ((j, w) ∷ m) k (fresh, h) = elim (Bool-cases (str_eq j k)) [
    | inl same ↦ rw same (delete-IsMap m k h)
    | inr other ↦ rw other (lookup-delete-none m k j fresh, delete-IsMap m k h)
  ]

  -- Taking out a key that is not there changes nothing.
  pub delete_absent : (m : Dict V) (k : String) → lookup m k ≡ none → delete m k ≡ m
  unfolding lookup delete
  delete_absent [] k h = refl
  delete_absent ((j, w) ∷ m) k h = ground (arith, delete_absent m k)
