-- ===== src/Monitor/Checker/Runs.antt =====
-- Runs of equal outcomes in a list.
use chaosblade_box_agent.Prelude.{
  ℕ, zero, suc, ◌<◌, ◌≡◌, refl, ap, Bool, true, false, not, ◌&&◌, List, [], ◌∷◌, ◌++◌, arith,
  replicate,
}

-- the list begins with `n` times `b`
abbrev pub starts : ℕ → Bool → List Bool → Bool
starts zero b xs = true
starts (suc n) b [] = false
starts (suc n) true (x ∷ xs) = x && starts n true xs
starts (suc n) false (x ∷ xs) = not x && starts n false xs

-- nowhere do `n` times `b` stand in a row
abbrev pub LacksRun : ℕ → Bool → List Bool → Type 0
LacksRun n b [] = Unit
LacksRun n b (x ∷ xs) = (starts n b (x ∷ xs) ≡ false) × LacksRun n b xs

-- `n` times `b` stand in a row, and before the end of that run no `k` times the other outcome
pub record Decided (b : Bool) (n k : ℕ) (xs : List Bool) : Type 0 where
  pub before : List Bool
  pub rest : List Bool
  pub splits : xs ≡ before ++ replicate n b ++ rest
  pub lacks : LacksRun k (not b) (before ++ replicate n b)

pub starts-replicate :
    (k s : ℕ) (b : Bool) (xs : List Bool) → s < k → starts k b (replicate s b ++ not b ∷ xs) ≡ false
starts-replicate zero s b xs h = absurd (omega arith)
starts-replicate (suc k) zero true xs h = refl
starts-replicate (suc k) zero false xs h = refl
starts-replicate (suc k) (suc s) true xs h = starts-replicate k s true xs (omega arith)
starts-replicate (suc k) (suc s) false xs h = starts-replicate k s false xs (omega arith)

-- fewer than `k` times `b` before the other outcome make no run
pub LacksRun-replicate :
    (k s : ℕ) (b : Bool) (xs : List Bool)
    → s < k
    → LacksRun k b xs
    → LacksRun k b (replicate s b ++ not b ∷ xs)
LacksRun-replicate k zero true xs h l = (starts-replicate k 0 true xs h, l)
LacksRun-replicate k zero false xs h l = (starts-replicate k 0 false xs h, l)
LacksRun-replicate k (suc s) b xs h l =
    (starts-replicate k (suc s) b xs h, LacksRun-replicate k s b xs (omega arith) l)

pub LacksRun-last :
    (b : Bool) (k s : ℕ) (xs : List Bool)
    → s < k
    → LacksRun k (not b) xs
    → LacksRun k (not b) (replicate s (not b) ++ b ∷ xs)
LacksRun-last true k s xs h l = LacksRun-replicate k s false xs h l
LacksRun-last false k s xs h l = LacksRun-replicate k s true xs h l

pub LacksRun-drop :
    (k s : ℕ) (b c : Bool) (xs : List Bool) → LacksRun k b (replicate s c ++ xs) → LacksRun k b xs
LacksRun-drop k zero b c xs l = l
LacksRun-drop k (suc s) b c xs l = LacksRun-drop k s b c xs l.1

pub starts_run : (k : ℕ) (b : Bool) (xs : List Bool) → starts k b (replicate k b ++ xs) ≡ true
starts_run zero b xs = refl
starts_run (suc k) true xs = starts_run k true xs
starts_run (suc k) false xs = starts_run k false xs

pub replicate-snoc :
    (k : ℕ) (b : Bool) (xs : List Bool) → replicate k b ++ b ∷ xs ≡ b ∷ (replicate k b ++ xs)
replicate-snoc zero b xs = refl
replicate-snoc (suc k) b xs = ap (λ (l : List Bool). b ∷ l) (replicate-snoc k b xs)

pub LacksRun-lt :
    (k s : ℕ) (b : Bool) (xs : List Bool) → LacksRun k b (replicate s b ++ b ∷ xs) → suc s ≡ k → ⊥
LacksRun-lt k s b xs l e =
    let l' : LacksRun k b (b ∷ (replicate s b ++ xs)) = rw replicate-snoc at l in
    cc (l'.0, starts_run (suc s) b xs, e)
