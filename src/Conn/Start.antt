-- ===== src/Conn/Start.antt =====
-- conn/conn.go: the client handles and their start. `Start` declares its error channel and never makes
-- it; a send or a receive on a nil channel waits for ever.
use chaosblade_box_agent.Prelude.{
  ◌≡◌, refl, String, Bool, true, false, Option, none, some, List, [], ◌∷◌,
}
use chaosblade_box_agent.Prelude.Dict.{Dict, insert}

-- `Conn`: the handles by their names, each given by what its `Start` returns
abbrev pub Conn : Type 0
Conn = Dict (Option String)

-- `NewConn`
abbrev pub new_conn : Conn
new_conn = []

-- `Register`
unfoldable pub register : Conn → String → Option String → Conn
unfolding insert
register c name handler = insert c name handler

-- the process: whether the error channel was made, the errors of the goroutines that wait to send
-- them, whether the goroutine that receives runs, and whether the process has ended
pub record Process : Type 0 where
  pub made : Bool
  pub waiting : List String
  pub receiving : Bool
  pub exited : Bool

-- the errors of the handles that fail
unfoldable pub start_errors : Conn → List String
start_errors [] = []
start_errors ((name, none) ∷ c) = start_errors c
start_errors ((name, some err) ∷ c) = err ∷ start_errors c

-- `Start`, when every handle's own start has returned
unfoldable pub start : Conn → Process
unfolding start_errors
start [] = record { made = false; waiting = []; receiving = false; exited = false }
start (handle ∷ c) = record {
  made = false;
  waiting = start_errors (handle ∷ c);
  receiving = true;
  exited = false;
}

-- an error that is handed over ends the process
data Step : Process → Process → Type 0 where
  hand_over :
      (p q : Process) (err : String) (rest : List String)
      → p.made ≡ true
      → p.receiving ≡ true
      → p.waiting ≡ err ∷ rest
      → q ≡ record p { waiting = rest; exited = true }
      → Step p q

start-made : (c : Conn) → (start c).made ≡ false
unfolding start
start-made [] = refl
start-made (handle ∷ c) = refl

-- No step follows the start, whichever handles fail: the process does not end on an error.
start_stuck : (c : Conn) (q : Process) → Step (start c) q → ⊥
start_stuck c q (hand_over p _ err rest made receiving waiting e) = cc (made, start-made c)
