-- ===== src/Prediction/Reconcile.antt =====
-- Reconciliation: what the client's world is after a snapshot.
use mas_dsmb.Prelude.{
  ◌≡◌, ◌+◌, ◌≤◌, ◌<◌, ◌∷◌, ◌++◌, ◌∙◌, ℕ, suc, refl, sym, ap, Option, none, some, List, [], arith,
  length, lt→ltb, le→ltb, le→leb, lt→leb, subst,
}
use mas_dsmb.Prediction.{
  Simulation, InputHistoryEntry, drop_acknowledged, acknowledge, clear, Client, replay_pending,
  reconcile,
}
use mas_dsmb.Prediction.History.{IsRun, IsTimeline, drop_acknowledged_lem, drop_acknowledged_splits}

module _ (sim : Simulation) where
  open sim use {
    World, InputState, Duration, sequence_number, tick, rebase, sequence_number-tick,
    sequence_number-rebase,
  }

  sequence_number-replay_pending :
      (entries : List (InputHistoryEntry sim)) (w : World)
      → sequence_number (replay_pending sim entries w) ≡ sequence_number w + length entries
  unfolding replay_pending
  sequence_number-replay_pending [] w = omega arith
  sequence_number-replay_pending (e ∷ rest) w = omega (
    arith,
    sequence_number-replay_pending rest (tick e.dt e.input_state w),
    sequence_number-tick e.dt e.input_state w,
  )

  -- The entries that a snapshot leaves.
  abbrev later : World → Client sim → List (InputHistoryEntry sim)
  later snapshot c = (drop_acknowledged sim (sequence_number snapshot) none c.buffer.entries).1

  reconcile_fresh :
      (snapshot : World) (c : Client sim)
      → sequence_number c.world ≤ sequence_number snapshot + c.buffer.capacity
      → reconcile sim snapshot c ≡ record {
        world = replay_pending sim (later snapshot c) (rebase c.world snapshot);
        buffer = record { capacity = c.buffer.capacity; entries = later snapshot c };
      }
  unfolding reconcile acknowledge
  reconcile_fresh snapshot c near = rw (le→ltb _ _ near)

  -- The ticks of a list of inputs, the first one first.
  abbrev pub replayed : List (InputHistoryEntry sim) → World → World
  replayed [] w = w
  replayed (e ∷ rest) w = replayed rest (tick e.dt e.input_state w)

  replay_pending-replayed :
      (entries : List (InputHistoryEntry sim)) (w : World)
      → replay_pending sim entries w ≡ replayed entries w
  unfolding replay_pending
  replay_pending-replayed [] w = refl
  replay_pending-replayed (e ∷ rest) w = replay_pending-replayed rest (tick e.dt e.input_state w)

  -- The history is split at the snapshot's number: the inputs up to it are gone, and the world is the
  -- snapshot's, with the client's own objects, after the later ones.
  pub record IsReplayed (snapshot : World) (start : ℕ) (before after : Client sim) : Type 0 where
    pub done : List (InputHistoryEntry sim)
    pub pending : List (InputHistoryEntry sim)
    pub split : before.buffer.entries ≡ done ++ pending
    pub acknowledged : start + length done ≡ sequence_number snapshot
    pub kept : after.buffer.entries ≡ pending
    pub world : after.world ≡ replayed pending (rebase before.world snapshot)

  reconcile-IsReplayed :
      (snapshot : World) (start : ℕ) (c : Client sim)
      → IsTimeline sim start c
      → start ≤ sequence_number snapshot
      → sequence_number snapshot ≤ sequence_number c.world
      → IsReplayed snapshot start c (reconcile sim snapshot c)
  reconcile-IsReplayed snapshot start c h from upto =
      let (done, split, number) =
        drop_acknowledged_splits sim (sequence_number snapshot) start none c.buffer.entries
          h.numbered from (omega (arith, h.ends)) in
      rw (reconcile_fresh snapshot c (omega (arith, h.ends, h.within))) (record {
        done = done;
        pending = later snapshot c;
        split = split;
        acknowledged = number;
        kept = refl;
        world = replay_pending-replayed (later snapshot c) (rebase c.world snapshot);
      })

  reconcile-numbers :
      (snapshot : World) (start : ℕ) (c : Client sim)
      → IsTimeline sim start c
      → start ≤ sequence_number snapshot
      → sequence_number snapshot ≤ sequence_number c.world
      → IsTimeline sim (sequence_number snapshot) (reconcile sim snapshot c)
        × (sequence_number (reconcile sim snapshot c).world ≡ sequence_number c.world)
  reconcile-numbers snapshot start c h from upto =
      let (run, ends) =
        drop_acknowledged_lem sim (sequence_number snapshot) start none c.buffer.entries h.numbered
          from (omega (arith, h.ends)) in
      let back = sequence_number-replay_pending (later snapshot c) (rebase c.world snapshot) in
      let base = sequence_number-rebase c.world snapshot in
      rw (reconcile_fresh snapshot c (omega (arith, h.ends, h.within))) (
        record {
          numbered = run;
          ends = omega (arith, ends, h.ends, back, base);
          within = omega (arith, ends, h.ends, h.within);
        },
        omega (arith, ends, h.ends, back, base),
      )

  -- For a client on a timeline and a snapshot from within it: the inputs up to the snapshot's number
  -- are dropped, the client's world is the snapshot's, with the client's own objects, after the ticks
  -- of the later inputs in their order, and the client is on a timeline from the snapshot's number, at
  -- the same sequence number as before.
  pub reconcile-IsTimeline :
      (snapshot : World) (start : ℕ) (c : Client sim)
      → IsTimeline sim start c
      → start ≤ sequence_number snapshot
      → sequence_number snapshot ≤ sequence_number c.world
      → IsReplayed snapshot start c (reconcile sim snapshot c)
        × IsTimeline sim (sequence_number snapshot) (reconcile sim snapshot c)
        × (sequence_number (reconcile sim snapshot c).world ≡ sequence_number c.world)
  reconcile-IsTimeline snapshot start c h from upto =
      let (line, same) = reconcile-numbers snapshot start c h from upto in
      (reconcile-IsReplayed snapshot start c h from upto, line, same)

  -- A snapshot further back than the history can hold: the history is dropped and the client takes
  -- the snapshot's world and number.
  pub reconcile_stale :
      (snapshot : World) (c : Client sim)
      → sequence_number snapshot + c.buffer.capacity < sequence_number c.world
      → ((reconcile sim snapshot c).world ≡ rebase c.world snapshot)
        × ((reconcile sim snapshot c).buffer.entries ≡ [])
        × (sequence_number (reconcile sim snapshot c).world ≡ sequence_number snapshot)
  unfolding reconcile acknowledge clear replay_pending
  reconcile_stale snapshot c old =
      rw (lt→ltb _ _ old) (refl, refl, sequence_number-rebase c.world snapshot)

  replay_pending-append :
      (xs ys : List (InputHistoryEntry sim)) (w : World)
      → replay_pending sim (xs ++ ys) w ≡ replay_pending sim ys (replay_pending sim xs w)
  unfolding replay_pending
  replay_pending-append [] ys w = refl
  replay_pending-append (x ∷ xs) ys w = replay_pending-append xs ys (tick x.dt x.input_state w)

  drop_prefix :
      (start number : ℕ) (last : Option (InputHistoryEntry sim))
      (done pending : List (InputHistoryEntry sim))
      → IsRun sim start (done ++ pending)
      → number ≡ start + length done
      → (drop_acknowledged sim number last (done ++ pending)).1 ≡ pending
  unfolding drop_acknowledged
  drop_prefix start number last [] [] h e = refl
  drop_prefix start number last [] (x ∷ rest) h e =
      rw (lt→leb x.sequence_number number (omega (arith, h.0)))
  drop_prefix start number last (x ∷ done) pending h e =
      rw (le→leb x.sequence_number number (omega (arith, h.0)))
        (drop_prefix (suc start) number (some x) done pending h.1 (omega arith))

  -- For a client on a timeline whose world is its history replayed on some earlier world: if the
  -- snapshot's world, with the client's own objects, is what the client predicted at that number, then
  -- the reconciliation does not change the client's world.
  pub reconcile_confirms :
      (snapshot : World) (start : ℕ) (c : Client sim) (base : World)
      (done pending : List (InputHistoryEntry sim))
      → IsTimeline sim start c
      → c.buffer.entries ≡ done ++ pending
      → c.world ≡ replay_pending sim c.buffer.entries base
      → sequence_number snapshot ≡ start + length done
      → rebase c.world snapshot ≡ replay_pending sim done base
      → (reconcile sim snapshot c).world ≡ c.world
  reconcile_confirms snapshot start c base done pending h split predicted number agreed =
      ap (λ (x : Client sim). x.world) (reconcile_fresh snapshot c near)
      ∙ ap (λ es. replay_pending sim es (rebase c.world snapshot)) kept
      ∙ ap (replay_pending sim pending) agreed
      ∙ sym (replay_pending-append done pending base)
      ∙ ap (λ es. replay_pending sim es base) (sym split)
      ∙ sym predicted
    where
      near : sequence_number c.world ≤ sequence_number snapshot + c.buffer.capacity
      near = omega (arith, h.ends, h.within)

      kept : later snapshot c ≡ pending
      kept =
          ap (λ es. (drop_acknowledged sim (sequence_number snapshot) none es).1) split
          ∙ drop_prefix start (sequence_number snapshot) none done pending
              (subst (IsRun sim start) split h.numbered) number
