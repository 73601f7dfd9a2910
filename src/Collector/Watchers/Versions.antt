-- ===== src/Collector/Watchers/Versions.antt =====
-- The resource versions that the combined list joins are those that the combined watch takes apart.
use Prim.Native.Nat.{ℕ, suc}
use Prim.Native.String.{String, [] as nil, ◌∷◌ as cons, ◌++◌ as str_append}
use text.Mathlib.TextLemmas.{nil-append, cons-append, append-eq-nil_iff, cons-ne-nil}
use chaosblade_box_agent.Prelude.{
  ◌≡◌, refl, sym, ap, ◌∙◌, ◌⊎◌, inl, inr, arith, false, List, [], ◌∷◌, ◌++◌, length, replicate, All,
  str_eq, Bool-cases, Sum-cases, eq_iff, append_assoc, append-nil,
}
use chaosblade_box_agent.Prelude.Sets.{join, split, split_first}
use chaosblade_box_agent.Collector.Watchers.{
  ListerWatcher, list_one, list_all, multi_list, new_multi_watch, multi_watch,
}

-- the separator is no letter of the text
abbrev pub Without : String → String → Type 0
Without separator nil = Unit
Without separator (cons c s) = (str_eq (cons c nil) separator ≡ false) × Without separator s

split_first_end : (separator s : String) → Without separator s → split_first separator s ≡ (s, [])
unfolding split_first
split_first_end separator nil h = refl
split_first_end separator (cons c s) (other, h) = rw (other, split_first_end separator s h)

slash-append : (t : String) → str_append "/" t ≡ cons "/" t
slash-append t = cons-append "/" nil t ∙ ap (λ (s : String). cons "/" s) (nil-append t)

split_first_append :
    (s t : String)
    → Without "/" s
    → split_first "/" (str_append s (str_append "/" t)) ≡ (s, split t "/")
unfolding split_first split
split_first_append nil t h = rw (nil-append (str_append "/" t), slash-append t) refl
split_first_append (cons c s) t (other, h) =
    rw (cons-append c s (str_append "/" t)) (ground (arith, other, split_first_append s t h))

split-join :
    (v : String) (versions : List String)
    → All (Without "/") (v ∷ versions)
    → split (join "/" (v ∷ versions)) "/" ≡ v ∷ versions
unfolding split join
split-join v [] (h, _) = rw (split_first_end "/" v h)
split-join v (w ∷ rest) (h, hs) =
    rw (split_first_append v (join "/" (w ∷ rest)) h)
      (ap (λ (l : List String). v ∷ l) (split-join w rest hs))

join_blank :
    (versions : List String) → join "/" versions ≡ "" → versions ≡ replicate (length versions) ""
unfolding join
join_blank [] e = refl
join_blank (v ∷ []) e = ap (λ (s : String). s ∷ []) e
join_blank (v ∷ w ∷ rest) e =
    absurd (cons-ne-nil _ _ (sym (slash-append (join "/" (w ∷ rest))) ∙ (append-eq-nil_iff.0 e).1))

split-join_given :
    (versions : List String)
    → All (Without "/") versions
    → str_eq (join "/" versions) "" ≡ false
    → split (join "/" versions) "/" ≡ versions
unfolding join
split-join_given [] h given = cc
split-join_given (v ∷ versions) h given = split-join v versions h

-- the first error, or all that was opened
abbrev pub gather : List (String ⊎ List String) → String ⊎ List String
gather [] = inr []
gather (inl err ∷ opened) = inl err
gather (inr some_opened ∷ opened) = elim (gather opened) [
  | inl err ↦ inl err
  | inr more ↦ inr (some_opened ++ more)
]

module _ {A : Type 0} where
  multi_watch_given :
      (lws : List (ListerWatcher A)) (version : String) (versions : List String)
      → str_eq version "" ≡ false
      → split version "/" ≡ versions
      → length versions ≡ length lws
      → multi_watch lws version ≡ new_multi_watch lws versions
  unfolding multi_watch
  multi_watch_given lws version versions given taken counted = ground arith

  -- the resource version of each lister's own list
  abbrev pub own_versions : List (ListerWatcher A) → List String
  own_versions [] = []
  own_versions (lw ∷ lws) = elim (list_one lw) [
    | inl err ↦ []
    | inr (items, version) ↦ version ∷ own_versions lws
  ]

  list_all-own :
      (items : List A) (versions : List String) (lws : List (ListerWatcher A)) (items' : List A)
      (versions' : List String)
      → list_all items versions lws ≡ inr (items', versions')
      → (versions' ≡ versions ++ own_versions lws) × (length (own_versions lws) ≡ length lws)
  unfolding list_all
  list_all-own items versions [] items' versions' e = ground (arith, append-nil versions)
  list_all-own items versions (lw ∷ lws) items' versions' e = elim (Sum-cases (list_one lw)) [
    | inl (err, fails) ↦ ground arith
    | inr ((more, version), lists) ↦
        let rest : list_all (items ++ more) (versions ++ version ∷ []) lws
            ≡ inr (items', versions') =
          ground arith in
        let own : own_versions (lw ∷ lws) ≡ version ∷ own_versions lws = ground arith in
        let (split_off, counted) =
          list_all-own (items ++ more) (versions ++ version ∷ []) lws items' versions' rest in
        (
          split_off
              ∙ append_assoc versions (version ∷ []) (own_versions lws)
              ∙ ap (λ (l : List String). versions ++ l) (sym own),
          ap (λ (l : List String). length l) own ∙ ap (λ (n : ℕ). suc n) counted,
        )
  ]

  -- the watches of one lister from the version of its own list, or the error of either
  abbrev pub own_watch : ListerWatcher A → String ⊎ List String
  own_watch lw = elim (list_one lw) [ inl err ↦ inl err | inr (items, version) ↦ lw.watch version ]

  abbrev pub own_watches : List (ListerWatcher A) → List (String ⊎ List String)
  own_watches [] = []
  own_watches (lw ∷ lws) = own_watch lw ∷ own_watches lws

  new_multi_watch-own :
      (lws : List (ListerWatcher A))
      → length (own_versions lws) ≡ length lws
      → new_multi_watch lws (own_versions lws) ≡ gather (own_watches lws)
  unfolding new_multi_watch
  new_multi_watch-own [] counted = refl
  new_multi_watch-own (lw ∷ lws) counted = elim (Sum-cases (list_one lw)) [
    | inl (err, fails) ↦ absurd (ground arith)
    | inr ((items, version), lists) ↦ elim (Sum-cases (lw.watch version)) [
      | inl (err, refused) ↦ ground arith
      | inr (opened, opens) ↦ ground (arith, new_multi_watch-own lws)
    ]
  ]

  -- Where the combined list succeeds, and no resource version has a slash, a combined watch from the
  -- list's version asks each lister in turn for a watch from the version of its own list, and gives all
  -- that they open or the first error.
  pub multi_watch-multi_list :
      (lws : List (ListerWatcher A)) (items : List A) (version : String)
      → multi_list lws ≡ inr (items, version)
      → All (Without "/") (own_versions lws)
      → multi_watch lws version ≡ gather (own_watches lws)
  unfolding multi_list multi_watch
  multi_watch-multi_list lws items version e slashless = elim (Sum-cases (list_all [] [] lws)) [
    | inl (err, fails) ↦ ground arith
    | inr ((items', versions), lists) ↦
        let (own, counted) = list_all-own [] [] lws items' versions lists in
        let joined : join "/" (own_versions lws) ≡ version = ground (arith, own) in
        elim (Bool-cases (str_eq version "")) [
          | inl blank ↦
              let e' : version ≡ "" = (eq_iff version "").0 blank in
              let same = join_blank (own_versions lws) (joined ∙ e') in
              rw blank (
                ap (λ (l : List String). new_multi_watch lws l)
                  (ap (λ (n : ℕ). replicate n "") (sym counted) ∙ sym same)
                ∙ new_multi_watch-own lws counted)
          | inr given ↦
              let taken =
                split-join_given (own_versions lws) slashless
                  (ap (λ (s : String). str_eq s "") joined ∙ given) in
              multi_watch_given lws version (own_versions lws) given
                (ap (λ (s : String). split s "/") (sym joined) ∙ taken) counted
              ∙ new_multi_watch-own lws counted
        ]
  ]
