-- ===== src/Collector/Watchers/Events.antt =====
-- collector/kubernetes/kubernetes.go: the goroutines of `newMultiWatch`, which forward the events of
-- the watches to one channel, and `Stop`. A watch sends events and closes its channel when it likes;
-- receives, sends and closes of a channel are one step each, and the goroutines' steps interleave in
-- any order.
pub mod Forwards
mod Tests
use chaosblade_box_agent.Prelude.{
  ◌≡◌, refl, ℕ, zero, suc, String, Bool, true, false, Option, none, some, List, [], ◌∷◌, ◌++◌, All,
}

-- a watch and the goroutine that forwards its events: the events that the watch has sent, those of
-- them that the goroutine has not received, the one that it holds, those that the reader of the
-- result has got, whether the watch's channel is open, and whether the goroutine has returned
pub record Worker (E : Type 0) : Type 0 where
  pub emitted : List E
  pub queue : List E
  pub held : Option E
  pub delivered : List E
  pub is_open : Bool
  pub ended : Bool

-- `multiWatch`, with its goroutines: whether `stopped` and `result` are closed, how many calls of
-- `Stop` are past its test and not at its end, and whether a goroutine has panicked, for a send on
-- the closed `result`, or for a second close of `stopped`
pub record MultiWatch (E : Type 0) : Type 0 where
  pub workers : List (Worker E)
  pub stopped : Bool
  pub closed : Bool
  pub stopping : ℕ
  pub sent_closed : Bool
  pub closed_twice : Bool

module _ {E : Type 0} where
  abbrev pub new_worker : Worker E
  new_worker = record {
    emitted = [];
    queue = [];
    held = none;
    delivered = [];
    is_open = true;
    ended = false;
  }

  abbrev pub workers_of : List String → List (Worker E)
  workers_of [] = []
  workers_of (watch ∷ opened) = new_worker ∷ workers_of opened

  -- the watch that `newMultiWatch` returns for the watches that it has opened
  abbrev pub start_watch : List String → MultiWatch E
  start_watch opened = record {
    workers = workers_of opened;
    stopped = false;
    closed = false;
    stopping = 0;
    sent_closed = false;
    closed_twice = false;
  }

  -- one step of a watch or of its goroutine
  pub data Turn (stopped closed : Bool) : Worker E → Worker E → Type 0 where
    emits :
        (w w' : Worker E) (e : E)
        → w.is_open ≡ true
        → w' ≡ record w { emitted = w.emitted ++ e ∷ []; queue = w.queue ++ e ∷ [] }
        → Turn stopped closed w w'
    closes : (w w' : Worker E) → w' ≡ record w { is_open = false } → Turn stopped closed w w'
    receives :
        (w w' : Worker E) (e : E) (queue : List E)
        → w.ended ≡ false
        → w.held ≡ none
        → w.queue ≡ e ∷ queue
        → w' ≡ record w { held = some e; queue = queue }
        → Turn stopped closed w w'
    sees_closed :
        (w w' : Worker E)
        → w.ended ≡ false
        → w.held ≡ none
        → w.queue ≡ []
        → w.is_open ≡ false
        → w' ≡ record w { ended = true }
        → Turn stopped closed w w'
    delivers :
        (w w' : Worker E) (e : E)
        → w.held ≡ some e
        → closed ≡ false
        → w' ≡ record w { held = none; delivered = w.delivered ++ e ∷ [] }
        → Turn stopped closed w w'
    gives_up :
        (w w' : Worker E) (e : E)
        → w.held ≡ some e
        → stopped ≡ true
        → w' ≡ record w { held = none; ended = true }
        → Turn stopped closed w w'

  abbrev pub Ended : Worker E → Type 0
  Ended w = w.ended ≡ true

  -- one step; where `apart` holds, no call of `Stop` begins while another is under way
  pub data Step (apart : Bool) : MultiWatch E → MultiWatch E → Type 0 where
    turn :
        (m m' : MultiWatch E) (before after : List (Worker E)) (w w' : Worker E)
        → m.workers ≡ before ++ w ∷ after
        → Turn m.stopped m.closed w w'
        → m' ≡ record m { workers = before ++ w' ∷ after }
        → Step apart m m'
    sends_closed :
        (m m' : MultiWatch E) (before after : List (Worker E)) (w : Worker E) (e : E)
        → m.workers ≡ before ++ w ∷ after
        → w.held ≡ some e
        → m.closed ≡ true
        → m' ≡ record m { sent_closed = true }
        → Step apart m m'
    closes_result :
        (m m' : MultiWatch E)
        → All Ended m.workers
        → m' ≡ record m { closed = true }
        → Step apart m m'
    stop_begins :
        (m m' : MultiWatch E)
        → m.stopped ≡ false
        → (apart ≡ true → m.stopping ≡ 0)
        → m' ≡ record m { stopping = suc m.stopping }
        → Step apart m m'
    stop_ends :
        (m m' : MultiWatch E) (others : ℕ)
        → m.stopping ≡ suc others
        → m.stopped ≡ false
        → m' ≡ record m { stopped = true; stopping = others }
        → Step apart m m'
    stop_ends_again :
        (m m' : MultiWatch E) (others : ℕ)
        → m.stopping ≡ suc others
        → m.stopped ≡ true
        → m' ≡ record m { stopping = others; closed_twice = true }
        → Step apart m m'

  -- what a run of steps leads to
  pub data Watched (apart : Bool) (opened : List String) : MultiWatch E → Type 0 where
    begin : (m : MultiWatch E) → m ≡ start_watch opened → Watched apart opened m
    next :
        (m m' : MultiWatch E) → Watched apart opened m → Step apart m m' → Watched apart opened m'
