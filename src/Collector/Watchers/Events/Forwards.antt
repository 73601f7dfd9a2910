-- ===== src/Collector/Watchers/Events/Forwards.antt =====
-- What the combined watch forwards, and which panics it avoids.
use chaosblade_box_agent.Prelude.{
  ◌≡◌, ◌⊎◌, inl, inr, refl, sym, ap, ◌∙◌, subst, arith, suc, String, Bool, true, false, Option,
  none, some, List, [], ◌∷◌, ◌++◌, All, append_assoc, Bool-cases,
}
use chaosblade_box_agent.Collector.Watchers.Events.{
  Worker, MultiWatch, workers_of, Turn, emits, closes, receives, sees_closed, delivers, gives_up,
  Ended, Step, turn, sends_closed, closes_result, stop_begins, stop_ends, stop_ends_again, Watched,
  begin, next,
}

All-at :
    {A : Type 0} (P : A → Type 0) (before : List A) (x : A) (after : List A)
    → All P (before ++ x ∷ after)
    → P x
All-at P [] x after (h, _) = h
All-at P (y ∷ before) x after (_, hs) = All-at P before x after hs

All-put :
    {A : Type 0} (P : A → Type 0) (before : List A) (x y : A) (after : List A)
    → P y
    → All P (before ++ x ∷ after)
    → All P (before ++ y ∷ after)
All-put P [] x y after h (_, hs) = (h, hs)
All-put P (z ∷ before) x y after h (h', hs) = (h', All-put P before x y after h hs)

All-map :
    {A : Type 0} (P Q : A → Type 0) → ((x : A) → P x → Q x) → (xs : List A) → All P xs → All Q xs
All-map P Q f [] h = tt
All-map P Q f (x ∷ xs) (h, hs) = (f x h, All-map P Q f xs hs)

module _ {E : Type 0} where
  abbrev pub held_list : Option E → List E
  held_list none = []
  held_list (some e) = e ∷ []

  -- The reader has got the first events of a watch in their order. The rest is held and queued while
  -- the goroutine runs, and where the goroutine returned before a stop there is no rest and the
  -- watch's channel is closed.
  abbrev pub Forwarded : Bool → Worker E → Type 0
  Forwarded stopped w =
      ((rest : List E) × (w.emitted ≡ w.delivered ++ rest)
        × (w.ended ≡ false → rest ≡ held_list w.held ++ w.queue)
        × (w.ended ≡ true → stopped ≡ false → (rest ≡ []) × (w.is_open ≡ false)))
      × (w.ended ≡ true → w.held ≡ none)

  held-running :
      (w : Worker E) (e : E) → (w.ended ≡ true → w.held ≡ none) → w.held ≡ some e → w.ended ≡ false
  held-running w e h held = elim (Bool-cases w.ended) [
    | inl ended ↦ cc (h ended, held)
    | inr running ↦ running
  ]

  Turn-Forwarded :
      (stopped closed : Bool) (w w' : Worker E)
      → Turn stopped closed w w'
      → Forwarded stopped w
      → Forwarded stopped w'
  Turn-Forwarded stopped closed _ _ (emits w w' e opened same) ((rest, split, runs, ends), idle) =
      subst (Forwarded stopped) (sym same) (
        (
          rest ++ e ∷ [],
          ap (λ (l : List E). l ++ e ∷ []) split ∙ append_assoc w.delivered rest (e ∷ []),
          λ running.
              ap (λ (l : List E). l ++ e ∷ []) (runs running)
              ∙ append_assoc (held_list w.held) w.queue (e ∷ []),
          λ ended going. cc ((ends ended going).1, opened),
        ),
        idle,
      )
  Turn-Forwarded stopped closed _ _ (closes w w' same) ((rest, split, runs, ends), idle) =
      subst (Forwarded stopped) (sym same)
        ((rest, split, runs, λ ended going. ((ends ended going).0, refl)), idle)
  Turn-Forwarded stopped closed _ _ (receives w w' e queue running free queued same)
        ((rest, split, runs, ends), idle) =
      subst (Forwarded stopped) (sym same) (
        (rest, split, λ _. runs running ∙ rw (free, queued) refl, ends),
        λ ended. cc (running, ended),
      )
  Turn-Forwarded stopped closed _ _ (sees_closed w w' running free drained shut same)
        ((rest, split, runs, ends), idle) =
      subst (Forwarded stopped) (sym same) (
        (rest, split, λ e. cc e, λ _ going. (runs running ∙ rw (free, drained) refl, shut)),
        λ _. free,
      )
  Turn-Forwarded stopped closed _ _ (delivers w w' e held unclosed same)
        ((rest, split, runs, ends), idle) =
      let running = held-running w e idle held in
      subst (Forwarded stopped) (sym same) (
        (
          w.queue,
          split
              ∙ (ap (λ (l : List E). w.delivered ++ l) (runs running ∙ rw held refl)
                  ∙ sym (append_assoc w.delivered (e ∷ []) w.queue)),
          λ _. refl,
          λ ended going. cc (running, ended),
        ),
        λ _. refl,
      )
  Turn-Forwarded stopped closed _ _ (gives_up w w' e held is_stopped same)
        ((rest, split, runs, ends), idle) =
      subst (Forwarded stopped) (sym same)
        ((rest, split, λ e. cc e, λ _ going. cc (is_stopped, going)), λ _. refl)

  Turn-Ended :
      (stopped closed : Bool) (w w' : Worker E) → Turn stopped closed w w' → Ended w → Ended w'
  Turn-Ended stopped closed _ _ (emits w w' e _ same) h = subst Ended (sym same) h
  Turn-Ended stopped closed _ _ (closes w w' same) h = subst Ended (sym same) h
  Turn-Ended stopped closed _ _ (receives w w' e queue _ _ _ same) h = subst Ended (sym same) h
  Turn-Ended stopped closed _ _ (sees_closed w w' _ _ _ _ same) h = subst Ended (sym same) refl
  Turn-Ended stopped closed _ _ (delivers w w' e _ _ same) h = subst Ended (sym same) h
  Turn-Ended stopped closed _ _ (gives_up w w' e _ _ same) h = subst Ended (sym same) refl

  -- what holds of the goroutines and their two channels
  abbrev pub Kept : MultiWatch E → Type 0
  Kept m =
      All (Forwarded m.stopped) m.workers
      × (m.closed ≡ true → All Ended m.workers)
      × (m.sent_closed ≡ false)

  Forwarded-stopped : (w : Worker E) → Forwarded false w → Forwarded true w
  Forwarded-stopped w ((rest, split, runs, ends), idle) =
      ((rest, split, runs, λ ended going. cc going), idle)

  Step-Kept : (apart : Bool) (m m' : MultiWatch E) → Step apart m m' → Kept m → Kept m'
  Step-Kept apart _ _ (turn m m' before after w w' at moves same) (forwarded, ends, unsent) =
      let parts = subst (All (Forwarded m.stopped)) at forwarded in
      subst Kept (sym same) (
        All-put (Forwarded m.stopped) before w w' after
            (Turn-Forwarded m.stopped m.closed w w' moves
              (All-at (Forwarded m.stopped) before w after parts))
            parts,
        λ closed.
            let ended = subst (All Ended) at (ends closed) in
            All-put Ended before w w' after
              (Turn-Ended m.stopped m.closed w w' moves (All-at Ended before w after ended)) ended,
        unsent,
      )
  Step-Kept apart _ _ (sends_closed m m' before after w e at held closed same)
        (forwarded, ends, unsent) =
      let ended = All-at Ended before w after (subst (All Ended) at (ends closed)) in
      let idle =
        (All-at (Forwarded m.stopped) before w after
          (subst (All (Forwarded m.stopped)) at forwarded)).1 in
      cc (idle ended, held)
  Step-Kept apart _ _ (closes_result m m' ended same) (forwarded, ends, unsent) =
      subst Kept (sym same) (forwarded, λ _. ended, unsent)
  Step-Kept apart _ _ (stop_begins m m' going alone same) (forwarded, ends, unsent) =
      subst Kept (sym same) (forwarded, ends, unsent)
  Step-Kept apart _ _ (stop_ends m m' others stopping going same) (forwarded, ends, unsent) =
      subst Kept (sym same) (
        All-map (Forwarded false) (Forwarded true) Forwarded-stopped m.workers
            (subst (λ (b : Bool). All (Forwarded b) m.workers) going forwarded),
        ends,
        unsent,
      )
  Step-Kept apart _ _ (stop_ends_again m m' others stopping was same) (forwarded, ends, unsent) =
      subst Kept (sym same) (forwarded, ends, unsent)

  -- at most one call of `Stop` is under way, and `stopped` is closed once
  Single : MultiWatch E → Type 0
  Single m =
      ((m.stopping ≡ 0) ⊎ ((m.stopping ≡ 1) × (m.stopped ≡ false))) × (m.closed_twice ≡ false)

  Step-Single : (m m' : MultiWatch E) → Step true m m' → Single m → Single m'
  unfolding Single
  Step-Single _ _ (turn m m' before after w w' at moves same) h = subst Single (sym same) h
  Step-Single _ _ (sends_closed m m' before after w e at held closed same) h =
      subst Single (sym same) h
  Step-Single _ _ (closes_result m m' ended same) h = subst Single (sym same) h
  Step-Single _ _ (stop_begins m m' going alone same) (one, once) =
      subst Single (sym same) (inr (ap suc (alone refl), going), once)
  Step-Single _ _ (stop_ends m m' others stopping going same) (one, once) =
      subst Single (sym same) (
        elim one [ inl none_yet ↦ absurd (omega arith) | inr (single, _) ↦ inl (omega arith) ],
        once,
      )
  Step-Single _ _ (stop_ends_again m m' others stopping was same) (one, once) = elim one [
    | inl none_yet ↦ absurd (omega arith)
    | inr (single, going) ↦ cc (was, going)
  ]

workers_of-Forwarded :
    (E : Type 0) (opened : List String)
    → All (λ (w : Worker E). Forwarded false w) (workers_of opened)
workers_of-Forwarded E [] = tt
workers_of-Forwarded E (watch ∷ opened) =
    ((([], refl, λ _. refl, λ ended. cc ended), λ _. refl), workers_of-Forwarded E opened)

module _ {E : Type 0} where
  Watched-Kept :
      (apart : Bool) (opened : List String) (m : MultiWatch E) → Watched apart opened m → Kept m
  Watched-Kept apart opened m (begin _ start) =
      subst Kept (sym start) (workers_of-Forwarded E opened, λ closed. cc closed, refl)
  Watched-Kept apart opened _ (next m m' run step) =
      Step-Kept apart m m' step (Watched-Kept apart opened m run)

  Watched-Single : (opened : List String) (m : MultiWatch E) → Watched true opened m → Single m
  unfolding Single
  Watched-Single opened m (begin _ start) = subst Single (sym start) (inl refl, refl)
  Watched-Single opened _ (next m m' run step) = Step-Single m m' step (Watched-Single opened m run)

  apart-once :
      (apart : Bool) (opened : List String) (m : MultiWatch E)
      → Watched apart opened m
      → apart ≡ true
      → m.closed_twice ≡ false
  unfolding Single
  apart-once true opened m run e = (Watched-Single opened m run).1
  apart-once false opened m run e = cc e

  -- In any order of the steps of the watches, of their goroutines and of the calls of `Stop`: the
  -- reader has got the first events of each watch in their order, and all of them where the goroutine
  -- returned before a stop; `result` is closed only behind every goroutine, so that none sends on the
  -- closed channel; and `stopped` is not closed twice as long as no call of `Stop` begins while another
  -- is under way.
  pub Watched-Forwarded :
      {apart : Bool} {opened : List String} (m : MultiWatch E)
      → Watched apart opened m
      → All (Forwarded m.stopped) m.workers
        × (m.closed ≡ true → All Ended m.workers)
        × (m.sent_closed ≡ false)
        × (apart ≡ true → m.closed_twice ≡ false)
  Watched-Forwarded {apart} {opened} m run =
      let (forwarded, ends, unsent) = Watched-Kept apart opened m run in
      (forwarded, ends, unsent, apart-once apart opened m run)
