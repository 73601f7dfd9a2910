-- ===== src/Tools/LimitedList/History.antt =====
-- The list against the history of what was put.
use chaosblade_box_agent.Prelude.{
  ℕ, ◌-◌, ◌≤◌, ◌<◌, ◌≡◌, zero, sym, refl, ap, some, suc, List, [], ◌∷◌, ◌++◌, append_assoc, arith,
  ltb, leb, length, drop, length-append, length-drop, drop-append_le, drop-one-drop, Bool-cases,
  inl, inr, append-nil,
}
use chaosblade_box_agent.Tools.LimitedList.{
  LimitedList, push_back, remove_front, new_limited_list, put, put_all,
}

-- the newest `n` of a history
abbrev pub newest {ℓ} : {A : Type ℓ} → ℕ → List A → List A
newest n vs = drop (length vs - n) vs

module _ {ℓ} {A : Type ℓ} where
  remove_front-drop : (l : List A) → remove_front l ≡ drop 1 l
  remove_front-drop [] = refl
  remove_front-drop (x ∷ l) = refl

  drop-nil : (n : ℕ) → drop {A = A} n [] ≡ []
  drop-nil zero = refl
  drop-nil (suc n) = refl

  pub length-newest-le : (n : ℕ) (vs : List A) → length (newest n vs) ≤ n
  length-newest-le n vs = omega (arith, length-drop (length vs - n) vs)

  length-list :
      (this : LimitedList A) (vs : List A)
      → this.list ≡ newest this.cap vs
      → length this.list ≡ length vs - (length vs - this.cap)
  length-list this vs h = omega (arith, ap length h, length-drop (length vs - this.cap) vs)

  put_full :
      (this : LimitedList A) (vs : List A) (v : A)
      → this.list ≡ newest this.cap vs
      → this.cap < length (push_back this.list v)
      → remove_front (push_back this.list v) ≡ newest this.cap (vs ++ v ∷ [])
  put_full this vs v h full =
      let l = length-append this.list (v ∷ []) in
      let fits = length-list this vs h in
      let e : length (vs ++ v ∷ []) - this.cap ≡ suc (length vs - this.cap) =
        omega (arith, length-append vs (v ∷ []), l, fits, full) in
      rw
        (e, h, ← drop-append_le (length vs - this.cap) vs (v ∷ []) (omega arith), remove_front-drop)
        (drop-one-drop (length vs - this.cap) (vs ++ v ∷ []))

  put_room :
      (this : LimitedList A) (vs : List A) (v : A)
      → this.list ≡ newest this.cap vs
      → length (push_back this.list v) ≤ this.cap
      → push_back this.list v ≡ newest this.cap (vs ++ v ∷ [])
  put_room this vs v h room =
      let l = length-append this.list (v ∷ []) in
      let fits = length-list this vs h in
      let e : length (vs ++ v ∷ []) - this.cap ≡ 0 =
        omega (arith, length-append vs (v ∷ []), l, fits, room) in
      let e' : length vs - this.cap ≡ 0 = omega (arith, length-append vs (v ∷ []), l, fits, room) in
      rw (e, h, e')

  cap-put : (this : LimitedList A) (v : A) → (put this v).cap ≡ this.cap
  unfolding put
  cap-put this v = ground arith

  put-newest :
      (this : LimitedList A) (vs : List A) (v : A)
      → this.list ≡ newest this.cap vs
      → (put this v).list ≡ newest this.cap (vs ++ v ∷ [])
  unfolding put
  put-newest this vs v h = elim (Bool-cases (ltb this.cap (length (push_back this.list v)))) [
    | inl full ↦ rw full (put_full this vs v h (ground arith))
    | inr room ↦ rw room (put_room this vs v h (ground arith))
  ]

  -- After any puts on an empty list, the list is the newest `cap` values, in the order of the puts.
  pub put_all-newest :
      (this : LimitedList A) (vs ws : List A)
      → this.list ≡ newest this.cap vs
      → (put_all this ws).list ≡ newest this.cap (vs ++ ws)
  unfolding put_all
  put_all-newest this vs [] h = rw append-nil h
  put_all-newest this vs (w ∷ ws) h = rw (
    put_all-newest (put this w) (vs ++ w ∷ []) ws (rw cap-put (put-newest this vs w h)),
    cap-put,
    append_assoc,
  )

  -- A list that `NewLimitedSortList` made holds, after any puts, exactly the newest `cap` of the
  -- values that were put, in the order of the puts.
  pub put_all-new_limited_list :
      (cap : ℕ) (this : LimitedList A) (vs : List A)
      → new_limited_list cap ≡ some this
      → (put_all this vs).list ≡ newest cap vs
  unfolding new_limited_list
  put_all-new_limited_list cap this vs h = elim (Bool-cases (leb cap 0)) [
    | inl bad ↦ ground arith
    | inr good ↦
        let e : this ≡ record { cap = cap; list = [] } = ground arith in
        rw e (put_all-newest (record { cap = cap; list = [] }) [] vs (sym (drop-nil _)))
  ]
