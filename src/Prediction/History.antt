-- ===== src/Prediction/History.antt =====
-- The input history: its bound, and which entries an acknowledgement leaves.
use mas_dsmb.Prelude.{
  ◌≡◌, ◌+◌, ◌≤◌, ◌<◌, ◌∷◌, ◌++◌, ℕ, suc, refl, ap, inl, inr, Option, some, List, [], arith, ltb,
  leb, Bool-cases, ltb→lt, ltb→le, leb→le, leb→lt, length, length-append,
}
use mas_dsmb.Prediction.{
  Simulation, InputHistoryEntry, bounded, push, drop_acknowledged, Client, predict, predicted_tick,
}

module _ (sim : Simulation) where
  open sim use {World, InputState, Duration, sequence_number, tick, rebase, sequence_number-tick}

  abbrev Entry : Type 0
  Entry = InputHistoryEntry sim

  -- The entries bear the numbers that follow `start`, one after the other.
  abbrev pub IsRun : ℕ → List Entry → Type 0
  IsRun start [] = Unit
  IsRun start (e ∷ rest) = (e.sequence_number ≡ suc start) × IsRun (suc start) rest

  -- The client's timeline: the history is bounded and ends at the number of the client's world.
  pub record IsTimeline (start : ℕ) (c : Client sim) : Type 0 where
    pub numbered : IsRun start c.buffer.entries
    pub ends : start + length c.buffer.entries ≡ sequence_number c.world
    pub within : length c.buffer.entries ≤ c.buffer.capacity

  IsRun-append_one :
      (start : ℕ) (entries : List Entry) (e : Entry)
      → IsRun start entries
      → e.sequence_number ≡ suc (start + length entries)
      → IsRun start (entries ++ e ∷ [])
  IsRun-append_one start [] e h number = (omega arith, tt)
  IsRun-append_one start (x ∷ rest) e h number =
      (h.0, IsRun-append_one (suc start) rest e h.1 (omega arith))

  -- What a push leaves of a run: all of it, or all but its oldest entry.
  record Pushed (capacity start : ℕ) (entries : List Entry) (e : Entry) : Type 0 where
    from : ℕ
    later : start ≤ from
    numbered : IsRun from (bounded sim capacity (entries ++ e ∷ []))
    ends : from + length (bounded sim capacity (entries ++ e ∷ [])) ≡ suc (start + length entries)
    within : length (bounded sim capacity (entries ++ e ∷ [])) ≤ capacity

  push_run :
      (capacity start : ℕ) (entries : List Entry) (e : Entry)
      → 0 < capacity
      → IsRun start entries
      → length entries ≤ capacity
      → e.sequence_number ≡ suc (start + length entries)
      → Pushed capacity start entries e
  unfolding bounded
  push_run capacity start [] e room h within number = elim (Bool-cases (ltb capacity 1)) [
    | inl full ↦ absurd (omega (arith, ltb→lt _ _ full))
    | inr fits ↦ record {
      from = start;
      later = omega arith;
      numbered = rw fits (omega arith, tt);
      ends = rw fits (omega arith);
      within = rw fits (omega arith);
    }
  ]
  push_run capacity start (x ∷ rest) e room h within number =
      elim (Bool-cases (ltb capacity (length (x ∷ rest ++ e ∷ [])))) [
        | inl full ↦ record {
          from = suc start;
          later = omega arith;
          numbered = rw full (IsRun-append_one (suc start) rest e h.1 (omega arith));
          ends = rw full (omega (arith, length-append rest (e ∷ [])));
          within = rw full (omega (arith, length-append rest (e ∷ [])));
        }
        | inr fits ↦ record {
          from = start;
          later = omega arith;
          numbered = rw fits (h.0, IsRun-append_one (suc start) rest e h.1 (omega arith));
          ends = rw fits (omega (arith, length-append rest (e ∷ [])));
          within = rw fits (omega (arith, ltb→le _ _ fits));
        }
      ]

  -- For a client on a timeline whose history has room for an input at all, a predicted tick carries the
  -- timeline on by one number; it may start later, since a full history loses its oldest entry.
  pub predicted_tick-IsTimeline :
      (dt : Duration) (input_state : InputState) (start : ℕ) (c : Client sim)
      → 0 < c.buffer.capacity
      → IsTimeline start c
      → (start' : ℕ) × (start ≤ start')
        × IsTimeline start' (predicted_tick sim dt input_state c)
        × (sequence_number (predicted_tick sim dt input_state c).world
            ≡ suc (sequence_number c.world))
  unfolding predicted_tick predict push
  predicted_tick-IsTimeline dt input_state start c room h =
      let p =
        push_run c.buffer.capacity start c.buffer.entries _ room h.numbered h.within
          (omega (arith, h.ends)) in
      (
        p.from,
        p.later,
        record {
          numbered = p.numbered;
          ends = omega (arith, p.ends, h.ends, sequence_number-tick dt input_state c.world);
          within = p.within;
        },
        sequence_number-tick dt input_state c.world,
      )

  -- Dropping what a snapshot acknowledges: from a run, the entries of later numbers stay.
  pub drop_acknowledged_lem :
      (number start : ℕ) (last : Option Entry) (entries : List Entry)
      → IsRun start entries
      → start ≤ number
      → number ≤ start + length entries
      → (IsRun number (drop_acknowledged sim number last entries).1)
        × (number + length (drop_acknowledged sim number last entries).1 ≡ start + length entries)
  unfolding drop_acknowledged
  drop_acknowledged_lem number start last [] h from upto = (tt, omega arith)
  drop_acknowledged_lem number start last (e ∷ rest) h from upto =
      elim (Bool-cases (leb e.sequence_number number)) [
        | inl old ↦ rw old (
            let (run, ends) =
              drop_acknowledged_lem number (suc start) (some e) rest h.1
                (omega (arith, leb→le _ _ old)) (omega arith) in
            (run, omega arith))
        | inr new ↦
            let here : number ≡ start = omega (arith, leb→lt _ _ new) in rw (new, here) (h, refl)
      ]

  -- What it drops is the beginning of the history, up to the number.
  pub drop_acknowledged_splits :
      (number start : ℕ) (last : Option Entry) (entries : List Entry)
      → IsRun start entries
      → start ≤ number
      → number ≤ start + length entries
      → (done : List Entry) × (entries ≡ done ++ (drop_acknowledged sim number last entries).1)
        × (start + length done ≡ number)
  unfolding drop_acknowledged
  drop_acknowledged_splits number start last [] h from upto = ([], refl, omega arith)
  drop_acknowledged_splits number start last (e ∷ rest) h from upto =
      elim (Bool-cases (leb e.sequence_number number)) [
        | inl old ↦ rw old (
            let (done, split, ends) =
              drop_acknowledged_splits number (suc start) (some e) rest h.1
                (omega (arith, leb→le _ _ old)) (omega arith) in
            (e ∷ done, ap (λ l. e ∷ l) split, omega arith))
        | inr new ↦ rw new ([], refl, omega (arith, leb→lt _ _ new))
      ]
