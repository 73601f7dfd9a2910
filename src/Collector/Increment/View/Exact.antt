-- ===== src/Collector/Increment/View/Exact.antt =====
-- A round of reports that the server answers keeps its view of the resources exact.
use chaosblade_box_agent.Prelude.{
  ◌≡◌, refl, ap, sym, ◌∙◌, inl, inr, arith, String, true, false, Option, none, some, List, [], ◌∷◌,
  str_eq, if◌then◌else◌, Bool-cases, eq_iff, returned, subst,
}
use chaosblade_box_agent.Prelude.{All}
use chaosblade_box_agent.Prelude.Dict.{Dict, lookup, insert, IsMap, lookup-insert}
use chaosblade_box_agent.Transport.Json.{Fields}
use chaosblade_box_agent.Collector.{ResourceIdentifier}
use chaosblade_box_agent.Collector.Metric.{add_cids}
use chaosblade_box_agent.Collector.Metric.Resets.{lookup-add_cids, with_cid, cid_in}
use chaosblade_box_agent.Collector.Increment.{ResourceInfo, collect, sweep}
use chaosblade_box_agent.Collector.Increment.Tracks.{
  mem, uids, tracked, swept, lookup-sweep, collected,
}
use chaosblade_box_agent.Collector.Increment.View.{
  receive, receive_all, is_stale, lookup-receive_gone, Good, entry, sent, handle_increment_lem,
  entry_marked, entry_uid, receive-sent,
}
use chaosblade_box_agent.Collector.Increment.View.Follows.{
  full_uid, latest, latest-mem, has_cid, add_cids-IsMap, sweep-IsMap, InStep, Settled, Settled-of,
  point,
}

module _ {A R : Type 0} (info : ResourceInfo A) (md5sum_data : A → Option String) (full : R → A)
    (fresh : (r : R) → ((info.common (full r)).exist ≡ true) × ((info.common (full r)).cid ≡ ""))
    (summed : (a : A) → (text : String) × (md5sum_data a ≡ some text)) where
  -- no other information has the sum of the resource's
  abbrev pub Told : R → Type 0
  Told r = (b : A) → md5sum_data b ≡ md5sum_data (full r) → b ≡ full r

  abbrev pub AllGood : Dict ResourceIdentifier → Dict A → Type 0
  AllGood ids view = (k : String) → Good md5sum_data k (lookup ids k) (lookup view k)

  abbrev pub round : Dict ResourceIdentifier → List R → Dict ResourceIdentifier × List A
  round ids rs = collect info md5sum_data (λ ids r. full r) (λ a. a) ids rs

  Good-insert :
      (k uid : String) (v : ResourceIdentifier) (a : A) (o : Option ResourceIdentifier)
      (w : Option A)
      → v.uid ≡ uid
      → md5sum_data a ≡ some v.md5
      → Good md5sum_data k o w
      → Good md5sum_data k (if str_eq uid k then some v else o) (if str_eq uid k then some a else w)
  Good-insert k uid v a o w named sum good = elim (Bool-cases (str_eq uid k)) [
    | inl same ↦ let e : uid ≡ k = (eq_iff uid k).0 same in rw same (named ∙ e, λ h. (a, refl, sum))
    | inr other ↦ rw other good
  ]

  -- behind the reports of the round's resources
  pub followed :
      (ids : Dict ResourceIdentifier) (view : Dict A) (rs : List R)
      → AllGood ids view
      → All Told rs
      → let (ids', infos) = round ids rs in
        AllGood ids' (receive_all info view infos)
        × ((k : String)
            → lookup (receive_all info view infos) k ≡ latest info full rs k (lookup view k))
        × ((k : String)
            → mem k (uids (full_uid info full) rs) ≡ false
            → lookup ids' k ≡ lookup ids k)
  unfolding collect
  followed ids view [] good told = (good, λ k. refl, λ k h. refl)
  followed ids view (r ∷ rs) good (tells, told) =
      let a = full r in
      let uid = (info.common a).uid in
      let (text, is_summed) = summed a in
      let o = lookup ids uid in
      let v = entry info md5sum_data o text a in
      let a' = sent info md5sum_data o text a in
      let named = entry_uid info md5sum_data o (lookup view uid) text a (good uid) in
      let marks = entry_marked info md5sum_data o text a in
      let shown = λ (k : String).
        receive-sent info md5sum_data o view text a k (fresh r).0 (fresh r).1 is_summed tells
          (good uid) in
      let good' : AllGood (insert ids uid v) (receive info view a') = λ k.
        subst
          (λ (x : Option ResourceIdentifier).
            Good md5sum_data k x (lookup (receive info view a') k))
          (sym (lookup-insert ids uid k v))
          (subst
            (λ (y : Option A). Good md5sum_data k (if str_eq uid k then some v else lookup ids k) y)
            (sym (shown k))
            (Good-insert k uid v a (lookup ids k) (lookup view k) named
              (is_summed ∙ ap some (sym (marks.0))) (good k))) in
      let (all_good, latest_of, else_same) =
        followed (insert ids uid v) (receive info view a') rs good' told in
      rw (handle_increment_lem info md5sum_data ids a text is_summed) (
        all_good,
        λ k. latest_of k ∙ ap (latest info full rs k) (shown k),
        λ k h. else_same k (ground arith) ∙ ground (arith, lookup-insert ids uid k v),
      )

  with_cid_uid :
      (answer : Fields) (k : String) (o : Option ResourceIdentifier) (w : Option A)
      (v : ResourceIdentifier)
      → Good md5sum_data k o w
      → with_cid answer k o ≡ some v
      → v.uid ≡ k
  with_cid_uid answer k none w v good e = cc
  with_cid_uid answer k (some u) w v good e = ground arith

  -- what the view holds under a uid behind the answer and the sweep
  pub receive-answered :
      (ids : Dict ResourceIdentifier) (view : Dict A) (answer : Fields) (k : String)
      → IsMap ids
      → AllGood ids view
      → (add_cids ids answer).1 ≡ returned tt
      → lookup (receive_all info view (sweep info (add_cids ids answer).0).1) k
        ≡ (if is_stale (with_cid answer k (lookup ids k)) then none else lookup view k)
  receive-answered ids view answer k is_map good done =
      lookup-receive_gone info (add_cids ids answer).0 view k (add_cids-IsMap ids answer is_map)
        (λ j v e.
          with_cid_uid answer j (lookup ids j) (lookup view j) v (good j)
            (sym (lookup-add_cids ids answer j done) ∙ e))
      ∙ ap (λ (o : Option ResourceIdentifier). if is_stale o then none else lookup view k)
          (lookup-add_cids ids answer k done)

  -- one uid behind the answer and the sweep
  answer-sweep :
      (ids : Dict ResourceIdentifier) (view : Dict A) (answer : Fields) (k : String)
      → IsMap ids
      → AllGood ids view
      → (add_cids ids answer).1 ≡ returned tt
      → (tracked (lookup ids k) ≡ false → has_cid (lookup ids k) ≡ false → lookup view k ≡ none)
      → ((v : ResourceIdentifier)
          → lookup ids k ≡ some v
          → cid_in answer k v.cid ≡ ""
          → (v.cid ≡ "") × (tracked (lookup ids k) ≡ false))
      → let (ids', gone) = sweep info (add_cids ids answer).0 in
        (lookup (receive_all info view gone) k
          ≡ (if tracked (lookup ids k) then lookup view k else none))
        × Settled md5sum_data k (lookup ids' k) (lookup (receive_all info view gone) k)
  answer-sweep ids view answer k is_map good done absent answered =
      let ids' = (add_cids ids answer).0 in
      let is_map' = add_cids-IsMap ids answer is_map in
      let o' = with_cid answer k (lookup ids k) in
      let shown = receive-answered ids view answer k is_map good done in
      let cached : lookup (sweep info ids').0 k ≡ swept o' =
        lookup-sweep info ids' k is_map' ∙ ap swept (lookup-add_cids ids answer k done) in
      let (held, settled) =
        point md5sum_data answer k (lookup ids k) (lookup view k) (good k) absent answered in
      (
        shown ∙ held,
        Settled-of md5sum_data k (swept o') (lookup (sweep info ids').0 k)
            (if is_stale o' then none else lookup view k)
            (lookup (receive_all info view (sweep info ids').1) k) cached shown settled,
      )

  -- what no resource of the round names and has no cid is not in the view
  absent :
      (ids : Dict ResourceIdentifier) (view : Dict A) (rs : List R) (k : String)
      → InStep md5sum_data ids view
      → All Told rs
      → mem k (uids (full_uid info full) rs) ≡ false
      → has_cid (lookup (round ids rs).0 k) ≡ false
      → lookup (receive_all info view (round ids rs).1) k ≡ none
  absent ids view rs k step told outside no_cid =
      let (good, latest_of, else_same) = followed ids view rs step.good told in
      ground (
        arith,
        latest_of k,
        latest-mem info full rs k (lookup view k),
        else_same k outside,
        step.nothing_else k,
      )

  -- A round over a cache in step with the server's view, when every sum can be made and those of the
  -- listed resources tell them from all else, and whose answer is a map that leaves an identifier
  -- without a cid only if it had none and is not of the round: behind the reports the view holds the last
  -- information of each uid of the round, in full, and nothing else, and the cache is in step with it
  -- again.
  pub round-InStep :
      (ids : Dict ResourceIdentifier) (view : Dict A) (rs : List R) (answer : Fields)
      → InStep md5sum_data ids view
      → All Told rs
      → ((k : String) (v : ResourceIdentifier)
          → lookup (round ids rs).0 k ≡ some v
          → cid_in answer k v.cid ≡ ""
          → (v.cid ≡ "") × (mem k (uids (full_uid info full) rs) ≡ false))
      → (add_cids (round ids rs).0 answer).1 ≡ returned tt
      → let (ids', infos) = round ids rs in
        let (ids'', gone) = sweep info (add_cids ids' answer).0 in
        let view' = receive_all info (receive_all info view infos) gone in
        ((k : String) → lookup view' k ≡ latest info full rs k none)
        × InStep md5sum_data ids'' view'
  round-InStep ids view rs answer step told answered done =
      let ids' = (round ids rs).0 in
      let view1 = receive_all info view (round ids rs).1 in
      let answered_ids = (add_cids ids' answer).0 in
      let (good, latest_of, else_same) = followed ids view rs step.good told in
      let (is_map, marked) =
        collected info md5sum_data (λ ids r. full r) (λ a. a) (full_uid info full) (λ ids r. refl)
          summed ids rs step.is_map in
      let in_round : (k : String) → tracked (lookup ids' k) ≡ mem k (uids (full_uid info full) rs) =
        λ k. ground (arith, marked k, step.unmarked k) in
      let at = λ (k : String).
        answer-sweep ids' view1 answer k is_map good done
          (λ unseen no_cid. absent ids view rs k step told (sym (in_round k) ∙ unseen) no_cid)
          (λ v o e. ((answered k v o e).0, in_round k ∙ (answered k v o e).1)) in
      (
        λ k.
            (at k).0
            ∙ ground (
              arith,
              in_round k,
              latest_of k,
              latest-mem info full rs k (lookup view k),
              latest-mem info full rs k none,
            ),
        record {
          is_map = sweep-IsMap info answered_ids (add_cids-IsMap ids' answer is_map);
          unmarked = λ k.
              ground (arith, lookup-sweep info answered_ids k (add_cids-IsMap ids' answer is_map));
          good = λ k. (at k).1.0;
          nothing_else = λ k. (at k).1.1;
        },
      )
