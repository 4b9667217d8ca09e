-- ===== src/Execution/Projection/Replay.antt =====
-- execution/service.py: `replay_projection` against the events that the ledger keeps.
use modall.Common.{
  ℕ, List, ◌≤◌, ◌<◌, ◌≡◌, All, suc, ◌++◌, length, ◌∷◌, [], arith, refl, sym, ◌+◌, length-append,
  ◌∙◌, ok, ap,
}
use modall.Execution.Projection.{
  insert_event, sort_events, replay_sorted, replay_from, replay_projection,
}
use modall.Execution.Rows.{RunEvent, RunRows}
use modall.Execution.Ledger.Invariant.{Numbered, IsConsistent, Latest}
use mathlib.Core.Path.{subst}
use modall.Execution.Types.{RunStatus, queued}

-- every event comes before the n-th
abbrev Below : ℕ → List RunEvent → Type 0
Below n = All (λ x. x.sequence < n)

Below-le : (m n : ℕ) (xs : List RunEvent) → m ≤ n → Below m xs → Below n xs
Below-le m n [] le h = tt
Below-le m n (x ∷ xs) le h = (omega arith, Below-le m n xs le h.1)

Below-append :
    (n : ℕ) (xs : List RunEvent) (e : RunEvent)
    → Below n xs
    → e.sequence < n
    → Below n (xs ++ e ∷ [])
Below-append n [] e h lt = (lt, tt)
Below-append n (x ∷ xs) e h lt = (h.0, Below-append n xs e h.1 lt)

-- a later event is inserted at the end
insert_event-last :
    (e : RunEvent) (xs : List RunEvent) → Below e.sequence xs → insert_event e xs ≡ xs ++ e ∷ []
unfolding insert_event
insert_event-last e [] h = refl
insert_event-last e (x ∷ xs) h = ground (arith, insert_event-last e xs h.1)

record Sorted (es : List RunEvent) : Type 0 where
  below : Below (suc (length es)) (sort_events es)
  counted : length (sort_events es) ≡ length es

insert_event-sort :
    (e : RunEvent) (es : List RunEvent)
    → e.sequence ≡ suc (length es)
    → Sorted es
    → insert_event e (sort_events es) ≡ sort_events es ++ e ∷ []
insert_event-sort e es p s =
    insert_event-last e (sort_events es) (subst (λ n. Below n (sort_events es)) (sym p) s.below)

Numbered-Sorted : (es : List RunEvent) → Numbered es → Sorted es
unfolding sort_events
Numbered-Sorted [] h = record { below = tt; counted = refl }
Numbered-Sorted (e ∷ es) h =
    let s = Numbered-Sorted es h.1 in
    let q = insert_event-sort e es h.0 s in
    record {
      below = rw q (
          Below-append _ (sort_events es) e (Below-le _ _ (sort_events es) (omega arith) s.below)
            (omega arith));
      counted = rw q (length-append (sort_events es) (e ∷ []) ∙ omega (arith, s.counted));
    }

-- the loop over a history that is followed by one more event
replay_from-append :
    (k : ℕ) (current s : RunStatus) (xs : List RunEvent) (e : RunEvent)
    → replay_from k current xs ≡ ok s
    → e.sequence ≡ k + length xs
    → replay_from k current (xs ++ e ∷ []) ≡ ok e.status
unfolding replay_from
replay_from-append k current s [] e h p = ground arith
replay_from-append k current s (x ∷ xs) e h p =
    ground (arith, replay_from-append (k + 1) x.status s xs e)

-- the status of the newest event, `queued` if there is none
abbrev newest : List RunEvent → RunStatus
newest [] = queued
newest (e ∷ es) = e.status

replay_from-sort :
    (es : List RunEvent) → Numbered es → replay_from 1 queued (sort_events es) ≡ ok (newest es)
unfolding sort_events
replay_from-sort [] h = unfold replay_from in refl
replay_from-sort (e ∷ es) h =
    let s = Numbered-Sorted es h.1 in
    rw (insert_event-sort e es h.0 s) (
      replay_from-append 1 queued (newest es) (sort_events es) e (replay_from-sort es h.1)
        (omega (arith, s.counted)))

replay_sorted-eq : (xs : List RunEvent) → 0 < length xs → replay_sorted xs ≡ replay_from 1 queued xs
unfolding replay_sorted
replay_sorted-eq [] h = absurd (omega arith)
replay_sorted-eq (x ∷ xs) h = refl

-- The projection rebuilds the status of a consistent run.
pub replay_projection-status :
    (r : RunRows) → IsConsistent r → replay_projection r.events ≡ ok r.run.status
replay_projection-status r h = from_events r.events h.numbered h.latest
  where
    from_events :
        (es : List RunEvent)
        → Numbered es
        → Latest r.run.status es
        → replay_projection es ≡ ok r.run.status
    from_events [] n l = absurd l
    from_events (e ∷ es) n l =
        unfold replay_projection in
        replay_sorted-eq (sort_events (e ∷ es))
          (omega (arith, (Numbered-Sorted (e ∷ es) n).counted))
        ∙ replay_from-sort (e ∷ es) n
        ∙ ap ok l

-- the sequence numbers are k, k + 1, …
abbrev pub Contiguous : ℕ → List RunEvent → Type 0
Contiguous k [] = Unit
Contiguous k (e ∷ es) = (e.sequence ≡ k) × Contiguous (k + 1) es

abbrev pub last_status : RunStatus → List RunEvent → RunStatus
last_status s [] = s
last_status s (e ∷ es) = last_status e.status es

replay_from-Contiguous :
    (k : ℕ) (current s : RunStatus) (xs : List RunEvent)
    → replay_from k current xs ≡ ok s
    → Contiguous k xs × (last_status current xs ≡ s)
unfolding replay_from
replay_from-Contiguous k current s [] h = (tt, ground arith)
replay_from-Contiguous k current s (x ∷ xs) h =
    ground (arith, replay_from-Contiguous (k + 1) x.status s xs)

replay_sorted-Contiguous :
    (xs : List RunEvent) (s : RunStatus)
    → replay_sorted xs ≡ ok s
    → (0 < length xs) × Contiguous 1 xs × (last_status queued xs ≡ s)
unfolding replay_sorted
replay_sorted-Contiguous [] s e = ground arith
replay_sorted-Contiguous (x ∷ xs) s e =
    let (numbers, last) = replay_from-Contiguous 1 queued s (x ∷ xs) e in
    (omega arith, numbers, last)

-- A history that the projection accepts is not empty, is numbered 1, 2, … once it is sorted by
-- sequence, and the status returned is that of its last event.
pub replay_projection-Contiguous :
    (events : List RunEvent) (s : RunStatus)
    → replay_projection events ≡ ok s
    → (0 < length (sort_events events))
      × Contiguous 1 (sort_events events)
      × (last_status queued (sort_events events) ≡ s)
unfolding replay_projection
replay_projection-Contiguous events s h = replay_sorted-Contiguous (sort_events events) s h
