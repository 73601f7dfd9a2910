-- ===== src/Collector/Increment/View/Follows.antt =====
-- What a cache in step with the server's view is, and what a round does to one uid.
use chaosblade_box_agent.Prelude.{
  ◌≡◌, refl, sym, inl, inr, arith, String, Bool, false, not, Option, none, some, List, [], ◌∷◌,
  str_eq, if◌then◌else◌, Bool-cases, Option-cases, eq_iff, Outcome, panic, subst,
}
use chaosblade_box_agent.Prelude.Dict.{Dict, lookup, insert, IsMap, insert-IsMap}
use chaosblade_box_agent.Transport.Json.{Fields, end, field, as_string}
use chaosblade_box_agent.Collector.{ResourceIdentifier}
use chaosblade_box_agent.Collector.Metric.{add_cids}
use chaosblade_box_agent.Collector.Metric.Resets.{with_cid, cid_in}
use chaosblade_box_agent.Collector.Increment.{ResourceInfo, sweep}
use chaosblade_box_agent.Collector.Increment.Tracks.{
  Unmarked, mem, uids, tracked, swept, lookup-sweep,
}
use chaosblade_box_agent.Collector.Increment.View.{is_stale, Good}

-- the last of a round's resources with a uid, or else what was before
module _ {A R : Type 0} (info : ResourceInfo A) (full : R → A) where
  abbrev pub full_uid : R → String
  full_uid r = (info.common (full r)).uid

  abbrev pub latest : List R → String → Option A → Option A
  latest [] k o = o
  latest (r ∷ rs) k o = latest rs k (if str_eq (full_uid r) k then some (full r) else o)

  pub latest-mem :
      (rs : List R) (k : String) (o : Option A)
      → latest rs k o ≡ (if mem k (uids full_uid rs) then latest rs k none else o)
  latest-mem [] k o = refl
  latest-mem (r ∷ rs) k o =
      ground (arith, latest-mem rs k o, latest-mem rs k none, latest-mem rs k (some (full r)))

abbrev pub has_cid : Option ResourceIdentifier → Bool
has_cid none = false
has_cid (some v) = not (str_eq v.cid "")

abbrev Cached : Type 0
Cached = Dict ResourceIdentifier × Outcome (Unit {0})

pub add_cids-IsMap :
    (ids : Dict ResourceIdentifier) (v : Fields) → IsMap ids → IsMap (add_cids ids v).0
unfolding add_cids
add_cids-IsMap ids end h = h
add_cids-IsMap ids (field key value v) h = elim (Option-cases (lookup ids key)) [
  | inl unknown ↦
      let e : add_cids ids (field key value v) ≡ add_cids ids v = ground arith in
      subst (λ (p : Cached). IsMap p.0) (sym e) (add_cids-IsMap ids v h)
  | inr (vi, known) ↦ elim (Option-cases (as_string value)) [
    | inl no_text ↦
        let e : add_cids ids (field key value v) ≡ (ids, panic) = ground arith in
        subst (λ (p : Cached). IsMap p.0) (sym e) h
    | inr (cid, text) ↦
        let ids' = insert ids key (record vi { cid = cid }) in
        let e : add_cids ids (field key value v) ≡ add_cids ids' v = ground arith in
        subst (λ (p : Cached). IsMap p.0) (sym e)
          (add_cids-IsMap ids' v (insert-IsMap ids key (record vi { cid = cid }) h))
  ]
]

pub sweep-IsMap :
    {A : Type 0} (info : ResourceInfo A) (ids : Dict ResourceIdentifier)
    → IsMap ids
    → IsMap (sweep info ids).0
unfolding sweep
sweep-IsMap info [] h = tt
sweep-IsMap info ((k, v) ∷ ids) (fresh, h) =
    let rest = sweep-IsMap info ids h in
    let unknown : lookup (sweep info ids).0 k ≡ none = ground (arith, lookup-sweep info ids k h) in
    elim (Bool-cases v.curr) [
      | inl seen ↦
          let e : (sweep info ((k, v) ∷ ids)).0
              ≡ (k, record v { curr = false }) ∷ (sweep info ids).0 =
            ground arith in
          subst (λ (m : Dict ResourceIdentifier). IsMap m) (sym e) (unknown, rest)
      | inr unseen ↦
          let e : (sweep info ((k, v) ∷ ids)).0 ≡ (sweep info ids).0 = ground arith in
          subst (λ (m : Dict ResourceIdentifier). IsMap m) (sym e) rest
    ]

-- A cache that a view of the server matches: nothing is marked, each identifier with a cid has the sum
-- of what the view holds under its uid, and the view holds nothing else.
pub record InStep {A : Type 0} (md5sum_data : A → Option String) (ids : Dict ResourceIdentifier)
    (view : Dict A) : Type 0 where
  pub is_map : IsMap ids
  pub unmarked : Unmarked ids
  pub good : (k : String) → Good md5sum_data k (lookup ids k) (lookup view k)
  pub nothing_else : (k : String) → has_cid (lookup ids k) ≡ false → lookup view k ≡ none

module _ {A : Type 0} (md5sum_data : A → Option String) where
  -- a uid behind a round: what is cached fits what the view holds, and without a cid it holds nothing
  abbrev pub Settled : String → Option ResourceIdentifier → Option A → Type 0
  Settled k o w = Good md5sum_data k o w × (has_cid o ≡ false → w ≡ none)

  pub Settled-of :
      (k : String) (o o' : Option ResourceIdentifier) (w w' : Option A)
      → o' ≡ o
      → w' ≡ w
      → Settled k o w
      → Settled k o' w'
  Settled-of k o o' w w' eo ew h =
      subst (λ (x : Option ResourceIdentifier). Settled k x w') (sym eo)
        (subst (λ (y : Option A). Settled k o y) (sym ew) h)

  -- one uid: from what is behind the reports of the round's resources, `o` and `w`, over the answer to
  -- what is behind the sweep
  pub point :
      (answer : Fields) (k : String) (o : Option ResourceIdentifier) (w : Option A)
      → Good md5sum_data k o w
      → (tracked o ≡ false → has_cid o ≡ false → w ≡ none)
      → ((v : ResourceIdentifier)
          → o ≡ some v
          → cid_in answer k v.cid ≡ ""
          → (v.cid ≡ "") × (tracked o ≡ false))
      → let o' = with_cid answer k o in
        let w' = if is_stale o' then none else w in
        (w' ≡ (if tracked o then w else none)) × Settled k (swept o') w'
  point answer k none w good absent named = let e : w ≡ none = absent refl refl in (e, (tt, λ h. e))
  point answer k (some v) w good absent named =
      let cid = cid_in answer k v.cid in
      let o' = swept (with_cid answer k (some v)) in
      let w' = if is_stale (with_cid answer k (some v)) then none else w in
      elim (Bool-cases v.curr) [
        | inl seen ↦
            let v' = record v { cid = cid; curr = false } in
            let eo : o' ≡ some v' = ground arith in
            let ew : w' ≡ w = ground arith in
            (
              ground arith,
              Settled-of k (some v') o' w w' eo ew (
                (good.0, λ h. good.1 (ground arith)),
                λ h. absurd (ground (arith, eq_iff cid "", named v refl)),
              ),
            )
        | inr unseen ↦
            let eo : o' ≡ none = ground arith in
            let ew : w' ≡ none =
              ground (arith, eq_iff cid "", eq_iff v.cid "", named v refl, absent unseen) in
            (ground arith, Settled-of k none o' none w' eo ew (tt, λ h. refl))
      ]
