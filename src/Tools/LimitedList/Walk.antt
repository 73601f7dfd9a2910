-- ===== src/Tools/LimitedList/Walk.antt =====
-- What `Foreach` and `ForeachReverse` visit.
use chaosblade_box_agent.Prelude.{◌≡◌, refl, Bool, true, false, List, [], ◌∷◌, ◌++◌, arith}
use chaosblade_box_agent.Tools.LimitedList.{LimitedList, walk, foreach}

module _ {ℓ κ} {A : Type ℓ} {S : Type κ} (handle : S → A → S × Bool) where
  -- the state after the handler has seen all of a list
  abbrev pub after : List A → S → S
  after [] s = s
  after (v ∷ vs) s = after vs (handle s v).0

  pub after-append : (xs ys : List A) (s : S) → after (xs ++ ys) s ≡ after ys (after xs s)
  after-append [] ys s = refl
  after-append (x ∷ xs) ys s = after-append xs ys (handle s x).0

  -- the handler returns no error on the way
  abbrev pub Quiet : List A → S → Type 0
  Quiet [] s = Unit
  Quiet (v ∷ vs) s = ((handle s v).1 ≡ false) × Quiet vs (handle s v).0

  pub walk-append :
      (break_when_wrong : Bool) (xs ys : List A) (s : S)
      → Quiet xs s
      → walk handle break_when_wrong (xs ++ ys) s ≡ walk handle break_when_wrong ys (after xs s)
  unfolding walk
  walk-append break_when_wrong [] ys s q = refl
  walk-append break_when_wrong (x ∷ xs) ys s (here, later) =
      ground (arith, walk-append break_when_wrong xs ys (handle s x).0 later)

  pub walk_break :
      (xs : List A) (v : A) (ys : List A) (s : S)
      → Quiet xs s
      → (handle (after xs s) v).1 ≡ true
      → walk handle true (xs ++ v ∷ ys) s ≡ (handle (after xs s) v).0
  walk_break xs v ys s q wrong = rw (walk-append true xs (v ∷ ys) s q) (unfold walk in ground arith)

  pub walk_on : (vs : List A) (s : S) → walk handle false vs s ≡ after vs s
  unfolding walk
  walk_on [] s = refl
  walk_on (v ∷ vs) s = ground (arith, walk_on vs (handle s v).0)

  -- `Foreach` that breaks on errors hands over the values in order up to and with the first one that
  -- goes wrong, and none behind it; where it does not break it hands over all of them.
  foreach_visits :
      (this : LimitedList A) (xs : List A) (v : A) (ys : List A) (s : S)
      → this.list ≡ xs ++ v ∷ ys
      → Quiet xs s
      → (handle (after xs s) v).1 ≡ true
      → (foreach this handle true s ≡ after (xs ++ v ∷ []) s)
        × (foreach this handle false s ≡ after this.list s)
  unfolding foreach
  foreach_visits this xs v ys s e q wrong =
      (rw (e, walk_break xs v ys s q wrong, after-append xs (v ∷ []) s), walk_on this.list s)
