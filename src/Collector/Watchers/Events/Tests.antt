-- ===== src/Collector/Watchers/Events/Tests.antt =====
-- A combined watch of two namespaces, step by step.
use chaosblade_box_agent.Prelude.{◌≡◌, refl, ℕ, String, true, false, some, List, [], ◌∷◌, All}
use chaosblade_box_agent.Collector.Watchers.Events.{
  Worker, MultiWatch, new_worker, start_watch, emits, receives, delivers, Ended, turn, stop_begins,
  stop_ends, stop_ends_again, Watched, begin, next,
}
use chaosblade_box_agent.Collector.Watchers.Events.Forwards.{Forwarded, Watched-Forwarded}

abbrev opened : List String
opened = "default" ∷ "chaos" ∷ []

abbrev fresh : Worker ℕ
fresh = new_worker

abbrev started : MultiWatch ℕ
started = start_watch opened

-- the first watch sends 7, its goroutine receives it, and the reader gets it
abbrev sending : Worker ℕ
sending = record fresh { emitted = 7 ∷ []; queue = 7 ∷ [] }

abbrev holding : Worker ℕ
holding = record fresh { emitted = 7 ∷ []; held = some 7 }

abbrev forwarding : Worker ℕ
forwarding = record fresh { emitted = 7 ∷ []; delivered = 7 ∷ [] }

abbrev with_first : Worker ℕ → MultiWatch ℕ
with_first w = record started { workers = w ∷ fresh ∷ [] }

first_event : Watched true opened (with_first forwarding)
first_event =
    next (with_first holding) (with_first forwarding)
      (next (with_first sending) (with_first holding)
        (next started (with_first sending) (begin started refl) (
          turn started (with_first sending) [] (fresh ∷ []) fresh sending refl
            (emits fresh sending 7 refl refl) refl))
        (turn (with_first sending) (with_first holding) [] (fresh ∷ []) sending holding refl
          (receives sending holding 7 [] refl refl refl refl) refl))
      (turn (with_first holding) (with_first forwarding) [] (fresh ∷ []) holding forwarding refl
        (delivers holding forwarding 7 refl refl refl) refl)

Watched-Forwarded_example :
    All (Forwarded false) (forwarding ∷ fresh ∷ [])
    × (false ≡ true → All Ended (forwarding ∷ fresh ∷ []))
    × (false ≡ false)
    × (true ≡ true → false ≡ false)
Watched-Forwarded_example = Watched-Forwarded (with_first forwarding) first_event

-- two calls of `Stop` at once close `stopped` twice
abbrev stopping : ℕ → MultiWatch ℕ
stopping n = record started { stopping = n }

abbrev stopped_once : MultiWatch ℕ
stopped_once = record started { stopped = true; stopping = 1 }

abbrev stopped_twice : MultiWatch ℕ
stopped_twice = record started { stopped = true; closed_twice = true }

two_stops : Watched false opened stopped_twice
two_stops =
    next stopped_once stopped_twice
      (next (stopping 2) stopped_once
        (next (stopping 1) (stopping 2)
          (next started (stopping 1) (begin started refl)
            (stop_begins started (stopping 1) refl (λ e. refl) refl))
          (stop_begins (stopping 1) (stopping 2) refl (λ e. cc e) refl))
        (stop_ends (stopping 2) stopped_once 1 refl refl refl))
      (stop_ends_again stopped_once stopped_twice 0 refl refl refl)
