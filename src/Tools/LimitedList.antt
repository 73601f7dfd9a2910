-- ===== src/Tools/LimitedList.antt =====
-- pkg/tools/limitedlist.go: a list that keeps the newest `cap` values, the oldest in front.
-- Each method takes the list's mutex for the whole of its access, so a call is one step.
pub mod History
pub mod Walk
use chaosblade_box_agent.Prelude.{
  ℕ, ◌+◌, ◌≡◌, refl, Bool, true, false, Option, none, some, List, [], ◌∷◌, ◌++◌, reverse, ltb, leb,
  if◌then◌else◌, length,
}

pub record LimitedList {ℓ} (A : Type ℓ) : Type ℓ where
  pub cap : ℕ
  pub list : List A

-- `PushBack`, and `Front` and `Remove` of container/list
abbrev pub push_back {ℓ} : {A : Type ℓ} → List A → A → List A
push_back l v = l ++ v ∷ []

abbrev pub remove_front {ℓ} : {A : Type ℓ} → List A → List A
remove_front [] = []
remove_front (x ∷ l) = l

module _ {ℓ} {A : Type ℓ} where
  -- `NewLimitedSortList`: an error (none) unless `cap` is positive; the natural numbers leave out
  -- the negative ints, which are refused as 0 is
  unfoldable pub new_limited_list : ℕ → Option (LimitedList A)
  new_limited_list cap = if leb cap 0 then none else some (record { cap = cap; list = [] })

  -- `Put`
  unfoldable pub put : LimitedList A → A → LimitedList A
  put this value =
      let list = push_back this.list value in
      if ltb this.cap (length list)
      then record this { list = remove_front list }
      else record this { list = list }

  unfoldable pub put_all : LimitedList A → List A → LimitedList A
  put_all this [] = this
  put_all this (v ∷ vs) = put_all (put this v) vs

module _ {ℓ κ} {A : Type ℓ} {S : Type κ} where
  -- The loop that `Foreach` and `ForeachReverse` make over the copied list. The handler changes the
  -- state that its closure holds, and `true` stands for a returned error.
  unfoldable pub walk : (S → A → S × Bool) → Bool → List A → S → S
  walk handle break_when_wrong [] s = s
  walk handle break_when_wrong (v ∷ vs) s =
      let (s', wrong) = handle s v in
      let rest = walk handle break_when_wrong vs s' in
      if wrong then (if break_when_wrong then s' else rest) else rest

  unfoldable pub foreach : LimitedList A → (S → A → S × Bool) → Bool → S → S
  unfolding walk
  foreach this handle break_when_wrong s = walk handle break_when_wrong this.list s

  unfoldable pub foreach_reverse : LimitedList A → (S → A → S × Bool) → Bool → S → S
  unfolding walk
  foreach_reverse this handle break_when_wrong s =
      walk handle break_when_wrong (reverse this.list) s
