-- ===== src/Shadows/Display.antt =====
-- What a shadow copy shows, and that it never goes back to an older snapshot.
use mas_dsmb.Prelude.{
  ◌≡◌, ◌∷◌, ◌∙◌, if◌then◌else◌, ℕ, refl, sym, ap, inl, inr, Bool, true, false, not, Option, none,
  some, List, [], arith, ltb, Bool-cases,
}
use mas_dsmb.Domain.Scalar.{Scalar, of_nat, le_of_not_le}
use mas_dsmb.Domain.World.{Player}
use mas_dsmb.Shadows.{
  ShadowCopy, is_old, retarget, accept, update, extrapolate, elapsed_since, visual_after, visual_of,
  get_visual_state,
}

-- Strictly newer than the number held, or the first one.
abbrev pub newer : ℕ → Option ℕ → Bool
newer next none = true
newer next (some held) = ltb held next

newer-is_old : (next : ℕ) (held : Option ℕ) → newer next held ≡ not (is_old next held)
unfolding is_old
newer-is_old next none = refl
newer-is_old next (some held) = ground arith

module _ (scalar : Scalar) where
  open scalar use {Number, plus, minus, times, le}

  -- A state with its number, and when it arrived.
  abbrev pub Arrival : Type 0
  Arrival = Player scalar × ℕ × Number

  -- The copy after a list of updates.
  abbrev pub updated : List Arrival → ShadowCopy scalar → ShadowCopy scalar
  updated [] s = s
  updated ((state, number, at) ∷ rest) s = updated rest ((update scalar state number at s).1)

  -- The first state of the greatest number, beginning with what is held.
  abbrev pub latest :
      Option ℕ → Option (Player scalar) → List Arrival → Option ℕ × Option (Player scalar)
  latest number held [] = (number, held)
  latest number held ((state, next, at) ∷ rest) =
      let kept = latest number held rest in
      let taken = latest (some next) (some state) rest in if newer next number then taken else kept

  abbrev pub Shown : Type 0
  Shown = Option ℕ × Option (Player scalar)

  abbrev pub shown : ShadowCopy scalar → Shown
  shown s = (s.last_sequence_number, s.target)

  retarget-target :
      (held : Option (Player scalar)) (state : Player scalar) (at : Number) (s : ShadowCopy scalar)
      → (retarget scalar held state at s).target ≡ some state
  unfolding retarget
  retarget-target none state at s = refl
  retarget-target (some p) state at s = refl

  accept-shown :
      (state : Player scalar) (number : ℕ) (at : Number) (s : ShadowCopy scalar)
      → shown (accept scalar state number at s) ≡ (some number, some state)
  unfolding accept
  accept-shown state number at s =
      ap (λ (p : Option (Player scalar)). (some number, p)) (retarget-target s.target state at s)

  update_old :
      (state : Player scalar) (number : ℕ) (at : Number) (s : ShadowCopy scalar)
      → is_old number s.last_sequence_number ≡ true
      → (update scalar state number at s).1 ≡ s
  unfolding update
  update_old state number at s old = rw old refl

  update_new :
      (state : Player scalar) (number : ℕ) (at : Number) (s : ShadowCopy scalar)
      → is_old number s.last_sequence_number ≡ false
      → (update scalar state number at s).1 ≡ accept scalar state number at s
  unfolding update
  update_new state number at s new = rw new refl

  -- After any updates, in any order: the copy's number is the greatest that came, and its target is the
  -- first state that came with it.
  pub updated-latest :
      (arrivals : List Arrival) (s : ShadowCopy scalar)
      → shown (updated arrivals s) ≡ latest s.last_sequence_number s.target arrivals
  updated-latest [] s = refl
  updated-latest ((state, number, at) ∷ rest) s =
      elim (Bool-cases (is_old number s.last_sequence_number)) [
        | inl old ↦
            ap (λ t. shown (updated rest t)) (update_old state number at s old)
            ∙ updated-latest rest s
            ∙ sym (ap chosen (newer-is_old number s.last_sequence_number ∙ ap not old))
        | inr new ↦
            ap (λ t. shown (updated rest t)) (update_new state number at s new)
            ∙ updated-latest rest (accept scalar state number at s)
            ∙ ap (λ (t : Shown). latest t.0 t.1 rest) (accept-shown state number at s)
            ∙ sym (ap chosen (newer-is_old number s.last_sequence_number ∙ ap not new))
      ]
    where
      chosen : Bool → Shown
      chosen b =
          if b
          then latest (some number) (some state) rest
          else latest s.last_sequence_number s.target rest

  -- The player where its speed has brought it in the longest extrapolation, at rest.
  abbrev pub at_rest : ShadowCopy scalar → Player scalar → Player scalar
  at_rest s p =
      let time = s.max_extrapolation_time in
      record p {
        box = record (p.box) {
          x = plus p.box.x (times p.vx time);
          y = plus p.box.y (times p.vy time);
        };
        prev_x = plus p.prev_x (times p.vx time);
        prev_y = plus p.prev_y (times p.vy time);
        vx = of_nat scalar 0;
        vy = of_nat scalar 0;
      }

  -- A copy that has heard nothing for longer than both limits together shows the player at rest,
  -- however much later it is asked.
  pub get_visual_state-at_rest :
      (divide : Number → Number → Number) (now last : Number) (p : Player scalar)
      (s : ShadowCopy scalar)
      → s.target ≡ some p
      → s.last_snapshot_time ≡ some last
      → le (elapsed_since scalar last now) s.snapshot_timeout ≡ false
      → le (minus (elapsed_since scalar last now) s.snapshot_timeout) s.max_extrapolation_time
        ≡ false
      → get_visual_state scalar divide now s ≡ some (at_rest s p)
  unfolding get_visual_state visual_of visual_after extrapolate
  get_visual_state-at_rest divide now last p s held heard silent stopped =
      rw (held, heard, silent, stopped, le_of_not_le scalar _ _ stopped) refl
