-- ===== src/Monitor/Checker/Verdict.antt =====
-- What a walk over the snapshots decides, newest first: the first run of `hb_stop_threshold`
-- failures or of `hb_start_threshold` successes.
use chaosblade_box_agent.Prelude.{
  ℕ, zero, suc, ◌+◌, ◌≤◌, ◌<◌, ◌≡◌, ◌≢◌, refl, ◌↔◌, ◌⊎◌, inl, inr, Bool, true, false, not, Option,
  none, some, List, [], ◌∷◌, ◌++◌, append_assoc, append-nil, arith, ◌==◌, if◌then◌else◌, replicate,
  Bool-cases,
}
use chaosblade_box_agent.Monitor.Checker.Runs.{
  LacksRun, Decided, LacksRun-last, LacksRun-drop, replicate-snoc, LacksRun-lt,
}
use native.Mathlib.Numerals.{add-one}

-- the two counters over the outcomes: `some b` when a run of `b` is long enough
unfoldable pub scan : ℕ → ℕ → ℕ → ℕ → List Bool → Option Bool
scan m n f s [] = none
scan m n f s (false ∷ xs) =
    let rest = scan m n (f + 1) 0 xs in if f + 1 == m then some false else rest
scan m n f s (true ∷ xs) =
    let rest = scan m n 0 (s + 1) xs in if s + 1 == n then some true else rest

-- `b` is decided first, with `p` times `b` and `q` times the other outcome counted so far
pub run : Bool → ℕ → ℕ → ℕ → ℕ → List Bool → Bool
run b n k p q [] = false
run true n k p q (true ∷ xs) =
    let rest = run true n k (p + 1) 0 xs in if p + 1 == n then true else rest
run true n k p q (false ∷ xs) =
    let rest = run true n k 0 (q + 1) xs in if q + 1 == k then false else rest
run false n k p q (false ∷ xs) =
    let rest = run false n k (p + 1) 0 xs in if p + 1 == n then true else rest
run false n k p q (true ∷ xs) =
    let rest = run false n k 0 (q + 1) xs in if q + 1 == k then false else rest

run-nil : (b : Bool) (n k p q : ℕ) → run b n k p q [] ≡ false
unfolding run
run-nil true n k p q = refl
run-nil false n k p q = refl

run-hit :
    (b : Bool) (n k p q : ℕ) (xs : List Bool)
    → run b n k p q (b ∷ xs) ≡ (if p + 1 == n then true else run b n k (p + 1) 0 xs)
unfolding run
run-hit true n k p q xs = refl
run-hit false n k p q xs = refl

run-miss :
    (b : Bool) (n k p q : ℕ) (xs : List Bool)
    → run b n k p q (not b ∷ xs) ≡ (if q + 1 == k then false else run b n k 0 (q + 1) xs)
unfolding run
run-miss true n k p q xs = refl
run-miss false n k p q xs = refl

same-or-not : (b x : Bool) → (x ≡ b) ⊎ (x ≡ not b)
same-or-not true true = inl refl
same-or-not true false = inr refl
same-or-not false true = inr refl
same-or-not false false = inl refl

-- as `Decided`, with the outcomes counted so far put in front
record Reached (b : Bool) (n k p q : ℕ) (xs : List Bool) : Type 0 where
  before : List Bool
  rest : List Bool
  early : List Bool
  splits : xs ≡ before ++ rest
  ends : replicate p b ++ before ≡ early ++ replicate n b
  lacks : LacksRun k (not b) (replicate q (not b) ++ before)

Reached-last : (b : Bool) (k p q : ℕ) (xs : List Bool) → q < k → Reached b (suc p) k p q (b ∷ xs)
Reached-last b k p q xs h = record {
  before = b ∷ [];
  rest = xs;
  early = [];
  splits = refl;
  ends = rw (replicate-snoc, append-nil);
  lacks = LacksRun-last b k q [] h tt;
}

Reached-hit :
    (b : Bool) (n k p q : ℕ) (xs : List Bool)
    → q < k
    → Reached b n k (suc p) 0 xs
    → Reached b n k p q (b ∷ xs)
Reached-hit b n k p q xs h r = record {
  before = b ∷ r.before;
  rest = r.rest;
  early = r.early;
  splits = rw (← r.splits);
  ends = rw replicate-snoc r.ends;
  lacks = LacksRun-last b k q r.before h r.lacks;
}

Reached-miss :
    (b : Bool) (n k p q : ℕ) (xs : List Bool)
    → Reached b n k 0 (suc q) xs
    → Reached b n k p q (not b ∷ xs)
Reached-miss b n k p q xs r = record {
  before = not b ∷ r.before;
  rest = r.rest;
  early = replicate p b ++ not b ∷ r.early;
  splits = rw (← r.splits);
  ends = rw (r.ends, append_assoc);
  lacks = rw replicate-snoc r.lacks;
}

hit_sound :
    (b : Bool) (n k p q : ℕ) (xs : List Bool)
    → q < k
    → ((p + 1 ≢ n) → run b n k (p + 1) 0 xs ≡ true → Reached b n k (p + 1) 0 xs)
    → run b n k p q (b ∷ xs) ≡ true
    → Reached b n k p q (b ∷ xs)
hit_sound b n k p q xs h ih e = elim (Bool-cases (p + 1 == n)) [
  | inl last ↦ let full : n ≡ suc p = ground arith in rw full (Reached-last b k p q xs h)
  | inr more ↦
      let r = ih (ground arith) (rw (run-hit b n k p q xs, more) at e) in
      Reached-hit b n k p q xs h (rw (add-one p) at r)
]

miss_sound :
    (b : Bool) (n k p q : ℕ) (xs : List Bool)
    → ((q + 1 ≢ k) → run b n k 0 (q + 1) xs ≡ true → Reached b n k 0 (q + 1) xs)
    → run b n k p q (not b ∷ xs) ≡ true
    → Reached b n k p q (not b ∷ xs)
miss_sound b n k p q xs ih e = elim (Bool-cases (q + 1 == k)) [
  | inl last ↦ cc (rw (run-miss b n k p q xs, last) at e)
  | inr more ↦
      let r = ih (ground arith) (rw (run-miss b n k p q xs, more) at e) in
      Reached-miss b n k p q xs (rw (add-one q) at r)
]

run_sound :
    (b : Bool) (n k p q : ℕ) (xs : List Bool)
    → p < n
    → q < k
    → run b n k p q xs ≡ true
    → Reached b n k p q xs
run_sound b n k p q [] hp hq e = cc (run-nil b n k p q)
run_sound b n k p q (x ∷ xs) hp hq e =
    let hit = λ (ne : p + 1 ≢ n). run_sound b n k (p + 1) 0 xs (omega arith) (omega arith) in
    let miss = λ (ne : q + 1 ≢ k). run_sound b n k 0 (q + 1) xs (omega arith) (omega arith) in
    elim (same-or-not b x) [
      | inl same ↦ rw same (hit_sound b n k p q xs hq hit (rw same at e))
      | inr other ↦ rw other (miss_sound b n k p q xs miss (rw other at e))
    ]

-- `n` times `b` at the front decide at once
run-replicate :
    (b : Bool) (n k p q j : ℕ) (rest : List Bool)
    → p < n
    → n ≤ j + p
    → run b n k p q (replicate j b ++ rest) ≡ true
run-replicate b n k p q zero rest hp h = absurd (omega arith)
run-replicate b n k p q (suc j) rest hp h = elim (Bool-cases (p + 1 == n)) [
  | inl last ↦ rw (run-hit, last)
  | inr more ↦
      rw (run-hit, more) (run-replicate b n k (p + 1) 0 j rest (ground arith) (omega arith))
]

run_complete :
    (b : Bool) (n k p q : ℕ) (early rest : List Bool)
    → p < n
    → q < k
    → LacksRun k (not b) (replicate q (not b) ++ (early ++ replicate n b))
    → run b n k p q (early ++ replicate n b ++ rest) ≡ true
run_complete b n k p q [] rest hp hq l = run-replicate b n k p q n rest hp (omega arith)
run_complete b n k p q (x ∷ early) rest hp hq l = elim (same-or-not b x) [
  | inl same ↦ elim (Bool-cases (p + 1 == n)) [
    | inl last ↦ rw (same, run-hit, last)
    | inr more ↦
        let l' = LacksRun-drop k q (not b) (not b) ((x ∷ early) ++ replicate n b) l in
        rw (same, run-hit, more)
          (run_complete b n k (p + 1) 0 early rest (ground arith) (omega arith) l'.1)
  ]
  | inr other ↦
      let l' : LacksRun k (not b) (replicate q (not b) ++ not b ∷ (early ++ replicate n b)) =
        rw other at l in
      elim (Bool-cases (q + 1 == k)) [
        | inl last ↦ absurd (LacksRun-lt k q (not b) _ l' (ground arith))
        | inr more ↦
            let longer : LacksRun k (not b)
                (replicate (suc q) (not b) ++ (early ++ replicate n b)) =
              rw replicate-snoc at l' in
            rw (other, run-miss, more)
              (run_complete b n k 0 (q + 1) early rest (omega arith) (ground arith)
                (rw (add-one q) longer))
      ]
]

-- The counters find a run exactly where there is one with no run of the other outcome before.
pub run_iff :
    (b : Bool) (n k : ℕ) (xs : List Bool)
    → 0 < n
    → 0 < k
    → (run b n k 0 0 xs ≡ true) ↔ Decided b n k xs
run_iff b n k xs hn hk = (
  λ e.
      let r = run_sound b n k 0 0 xs hn hk e in
      record {
        before = r.early;
        rest = r.rest;
        splits = rw (← r.ends) r.splits;
        lacks = rw r.ends at r.lacks;
      },
  λ d. rw d.splits (run_complete b n k 0 0 d.before d.rest hn hk d.lacks),
)

-- `scan` is the two runs side by side
pub scan-eq-some :
    (m n f s : ℕ) (xs : List Bool)
    → f < m
    → s < n
    → ((scan m n f s xs ≡ some false) ↔ (run false m n f s xs ≡ true))
      × ((scan m n f s xs ≡ some true) ↔ (run true n m s f xs ≡ true))
unfolding scan run
scan-eq-some m n f s [] hf hs = ground arith
scan-eq-some m n f s (false ∷ xs) hf hs = ground (arith, scan-eq-some m n (f + 1) 0 xs)
scan-eq-some m n f s (true ∷ xs) hf hs = ground (arith, scan-eq-some m n 0 (s + 1) xs)
