-- ===== src/Collector/Increment/Tracks.antt =====
-- What the cache of identifiers holds behind a round of reports and behind a sweep.
use chaosblade_box_agent.Prelude.{
  ◌≡◌, refl, ap, ◌∙◌, inl, inr, arith, String, Bool, true, false, not, ◌&&◌, ◌||◌, Option, none,
  some, List, [], ◌∷◌, map, str_eq, if◌then◌else◌, Bool-cases, Option-cases, eq_iff,
}
use chaosblade_box_agent.Prelude.Dict.{Dict, lookup, insert, IsMap, insert-IsMap, lookup-insert}
use chaosblade_box_agent.Collector.{ResourceIdentifier}
use chaosblade_box_agent.Collector.Increment.{ResourceInfo, handle_increment, collect, sweep}

abbrev pub tracked : Option ResourceIdentifier → Bool
tracked none = false
tracked (some v) = v.curr

-- no identifier is marked as seen
abbrev pub Unmarked : Dict ResourceIdentifier → Type 0
Unmarked ids = (k : String) → tracked (lookup ids k) ≡ false

-- the cache behind a sweep, at a key
abbrev pub swept : Option ResourceIdentifier → Option ResourceIdentifier
swept none = none
swept (some v) = if v.curr then some (record v { curr = false }) else none

pub lookup-sweep :
    {A : Type 0} (info : ResourceInfo A) (ids : Dict ResourceIdentifier) (k : String)
    → IsMap ids
    → lookup (sweep info ids).0 k ≡ swept (lookup ids k)
unfolding sweep lookup
lookup-sweep info [] k h = refl
lookup-sweep info ((j, v) ∷ ids) k (fresh, h) =
    ground (arith, eq_iff j k, lookup-sweep info ids k h)

-- the uids of a round's resources
abbrev pub uids : {R : Type 0} → (R → String) → List R → List String
uids uid_of rs = map uid_of rs

abbrev pub mem : String → List String → Bool
mem k [] = false
mem k (uid ∷ rest) = if str_eq uid k then true else mem k rest

module _ {A R : Type 0} (info : ResourceInfo A) (md5sum_data : A → Option String)
    (info_of : Dict ResourceIdentifier → R → A) (finish : A → A) (uid_of : R → String)
    (named : (ids : Dict ResourceIdentifier) (r : R) → (info.common (info_of ids r)).uid ≡ uid_of r)
    (summed : (a : A) → (text : String) × (md5sum_data a ≡ some text)) where
  increment_marks :
      (ids : Dict ResourceIdentifier) (a : A)
      → (v : ResourceIdentifier) × ((handle_increment info md5sum_data ids a).0
          ≡ insert ids (info.common a).uid v)
        × (v.curr ≡ true)
  unfolding handle_increment
  increment_marks ids a =
      let uid = (info.common a).uid in
      let (sum_data, is_summed) = summed a in
      elim (Option-cases (lookup ids uid)) [
        | inl new ↦ (
          record { uid = uid; cid = ""; md5 = sum_data; curr = true; name = (info.common a).name },
          ground (arith, is_summed),
          refl,
        )
        | inr (v, known) ↦ elim (Bool-cases (str_eq v.md5 sum_data && not (str_eq v.cid ""))) [
          | inl same ↦ (record v { curr = true }, ground (arith, is_summed), refl)
          | inr changed ↦
              (record v { md5 = sum_data; curr = true }, ground (arith, is_summed), refl)
        ]
      ]

  -- the cache behind the loop
  pub collected :
      (ids : Dict ResourceIdentifier) (rs : List R)
      → IsMap ids
      → let ids' = (collect info md5sum_data info_of finish ids rs).0 in
        IsMap ids'
        × ((k : String)
            → tracked (lookup ids' k) ≡ mem k (uids uid_of rs) || tracked (lookup ids k))
  unfolding collect
  collected ids [] h = (h, λ k. refl)
  collected ids (r ∷ rs) h =
      let uid = uid_of r in
      let (v, marks, seen) = increment_marks ids (info_of ids r) in
      let marks' : (handle_increment info md5sum_data ids (info_of ids r)).0 ≡ insert ids uid v =
        marks ∙ ap (λ (u : String). insert ids u v) (named ids r) in
      let (is_map, marked) = collected (insert ids uid v) rs (insert-IsMap ids uid v h) in
      rw marks' (is_map, λ k. ground (arith, marked k, lookup-insert ids uid k v))
