-- ===== src/Collector/Increment/View/Fits.antt =====
-- A round over a cache that fits a view of the server which may hold more.
use chaosblade_box_agent.Prelude.{
  ◌≡◌, refl, sym, ap, ◌∙◌, subst, inl, inr, arith, String, Bool, true, Option, none, some, List,
  All, returned, Bool-cases, if◌then◌else◌,
}
use chaosblade_box_agent.Prelude.Dict.{Dict, lookup, IsMap}
use chaosblade_box_agent.Transport.Json.{Fields}
use chaosblade_box_agent.Collector.{ResourceIdentifier}
use chaosblade_box_agent.Collector.Metric.{add_cids}
use chaosblade_box_agent.Collector.Metric.Resets.{with_cid, lookup-add_cids}
use chaosblade_box_agent.Collector.Increment.{ResourceInfo, sweep}
use chaosblade_box_agent.Collector.Increment.Tracks.{
  Unmarked, mem, uids, tracked, swept, lookup-sweep, collected,
}
use chaosblade_box_agent.Collector.Increment.View.{Good, receive_all, is_stale}
use chaosblade_box_agent.Collector.Increment.View.Follows.{
  full_uid, latest, latest-mem, add_cids-IsMap, sweep-IsMap,
}
use chaosblade_box_agent.Collector.Increment.View.Exact.{Told, round, followed, receive-answered}

Good-swept :
    {A : Type 0} (md5sum_data : A → Option String) (answer : Fields) (k : String)
    (o : Option ResourceIdentifier) (w : Option A)
    → Good md5sum_data k o w
    → let w' = if is_stale (with_cid answer k o) then none else w in
      (tracked o ≡ true → w' ≡ w) × Good md5sum_data k (swept (with_cid answer k o)) w'
Good-swept md5sum_data answer k none w good = (λ seen. refl, tt)
Good-swept md5sum_data answer k (some v) w good = elim (Bool-cases v.curr) [
  | inl seen ↦ rw seen (λ _. refl, (good.0, λ h. good.1 (ground arith)))
  | inr unseen ↦ rw unseen (λ e. cc e, tt)
]

module _ {A R : Type 0} (info : ResourceInfo A) (md5sum_data : A → Option String) (full : R → A)
    (fresh : (r : R) → ((info.common (full r)).exist ≡ true) × ((info.common (full r)).cid ≡ ""))
    (summed : (a : A) → (text : String) × (md5sum_data a ≡ some text)) where
  -- A cache that fits a view of the server, which may hold more: nothing is marked, and each
  -- identifier with a cid has the sum of what the view holds under its uid.
  abbrev pub Fits : Dict ResourceIdentifier → Dict A → Type 0
  Fits ids view =
      IsMap ids × Unmarked ids × ((k : String) → Good md5sum_data k (lookup ids k) (lookup view k))

  -- one uid, behind the answer and the sweep: an identifier that was seen stays good, whatever cid the
  -- answer leaves it
  Good-behind :
      (ids : Dict ResourceIdentifier) (view : Dict A) (answer : Fields) (k : String)
      → IsMap ids
      → ((k : String) → Good md5sum_data k (lookup ids k) (lookup view k))
      → (add_cids ids answer).1 ≡ returned tt
      → let (ids', gone) = sweep info (add_cids ids answer).0 in
        (tracked (lookup ids k) ≡ true → lookup (receive_all info view gone) k ≡ lookup view k)
        × Good md5sum_data k (lookup ids' k) (lookup (receive_all info view gone) k)
  Good-behind ids view answer k is_map good done =
      let ids1 = (add_cids ids answer).0 in
      let gone = (sweep info ids1).1 in
      let held : lookup (receive_all info view gone) k
          ≡ (if is_stale (with_cid answer k (lookup ids k)) then none else lookup view k) =
        receive-answered info md5sum_data full fresh summed ids view answer k is_map good done in
      let kept : lookup (sweep info ids1).0 k ≡ swept (with_cid answer k (lookup ids k)) =
        lookup-sweep info ids1 k (add_cids-IsMap ids answer is_map)
        ∙ ap swept (lookup-add_cids ids answer k done) in
      let (same, fits) = Good-swept md5sum_data answer k (lookup ids k) (lookup view k) (good k) in
      (
        λ seen. held ∙ same seen,
        subst
            (λ (o : Option ResourceIdentifier).
              Good md5sum_data k o (lookup (receive_all info view gone) k))
            (sym kept)
            (subst
              (λ (w : Option A). Good md5sum_data k (swept (with_cid answer k (lookup ids k))) w)
              (sym held) fits),
      )

  pub round-Fits :
      (ids : Dict ResourceIdentifier) (view : Dict A) (rs : List R) (answer : Fields)
      → Fits ids view
      → All (Told info md5sum_data full fresh summed) rs
      → (add_cids (round info md5sum_data full fresh summed ids rs).0 answer).1 ≡ returned tt
      → let (ids', infos) = round info md5sum_data full fresh summed ids rs in
        let (ids'', gone) = sweep info (add_cids ids' answer).0 in
        let view' = receive_all info (receive_all info view infos) gone in
        ((k : String)
          → mem k (uids (full_uid info full) rs) ≡ true
          → lookup view' k ≡ latest info full rs k none)
        × Fits ids'' view'
  round-Fits ids view rs answer (is_map0, unmarked, good0) told done =
      let ids' = (round info md5sum_data full fresh summed ids rs).0 in
      let view1 = receive_all info view (round info md5sum_data full fresh summed ids rs).1 in
      let (good, latest_of, else_same) =
        followed info md5sum_data full fresh summed ids view rs good0 told in
      let (is_map, marked) =
        collected info md5sum_data (λ ids r. full r) (λ a. a) (full_uid info full) (λ ids r. refl)
          summed ids rs is_map0 in
      let in_round : (k : String) → tracked (lookup ids' k) ≡ mem k (uids (full_uid info full) rs) =
        λ k. ground (arith, marked k, unmarked k) in
      let at = λ (k : String). Good-behind ids' view1 answer k is_map good done in
      (
        λ k listed.
            (at k).0 (in_round k ∙ listed)
            ∙ latest_of k
            ∙ latest-mem info full rs k (lookup view k)
            ∙ ap (λ (b : Bool). if b then latest info full rs k none else lookup view k) listed,
        (
          sweep-IsMap info (add_cids ids' answer).0 (add_cids-IsMap ids' answer is_map),
          λ k. ground (
            arith,
            lookup-sweep info (add_cids ids' answer).0 k (add_cids-IsMap ids' answer is_map),
          ),
          λ k. (at k).1,
        ),
      )
