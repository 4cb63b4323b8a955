-- ===== src/Domain/Bounds.antt =====
-- The bounds of the world: what the clamp leaves of positions.
use mas_dsmb.Prelude.{
  ◌≡◌, ◌∷◌, ◌∙◌, if◌then◌else◌, if-both, String, ap, inl, inr, true, false, [], Bool-cases, Dict,
}
use mas_dsmb.Domain.Scalar.{Scalar, larger, smaller, of_nat, le_refl, le_of_not_le}
use mas_dsmb.Domain.World.{Player}
use mas_dsmb.Domain.Players.{
  GameEngine, clamp, over_values, over_players, clamp_character_to_world, clamp_players_to_world,
}
use mas_dsmb.Domain.Rules.{AllOf}

AllOf-over_values :
    {V : Type 0} (P : V → Type 0) (f : V → V) (d : Dict String V)
    → ((v : V) → P (f v))
    → AllOf P (over_values f d)
unfolding over_values
AllOf-over_values P f [] holds = tt
AllOf-over_values P f ((key, v) ∷ rest) holds = (holds v, AllOf-over_values P f rest holds)

module _ (scalar : Scalar) where
  open scalar use {Number, minus, le}

  le-larger : (a b : Number) → le a (larger scalar a b) ≡ true
  le-larger a b = elim (Bool-cases (le b a)) [
    | inl under ↦ ap (λ t. le a (if t then a else b)) under ∙ le_refl scalar a
    | inr over ↦ ap (λ t. le a (if t then a else b)) over ∙ le_of_not_le scalar b a over
  ]

  smaller-le : (a b : Number) → le (smaller scalar a b) b ≡ true
  smaller-le a b = elim (Bool-cases (le a b)) [
    | inl under ↦ ap (λ t. le (if t then a else b) b) under ∙ under
    | inr over ↦ ap (λ t. le (if t then a else b) b) over ∙ le_refl scalar b
  ]

  larger-le : (a b c : Number) → le a c ≡ true → le b c ≡ true → le (larger scalar a b) c ≡ true
  larger-le a b c ha hb = if-both {A = Number} (λ m. le m c ≡ true) (le b a) ha hb

  -- Not left of the world and, where the thing fits in at all, not beyond its far edge.
  abbrev pub IsWithin : Number → Number → Number → Type 0
  IsWithin extent size v =
      (le (of_nat scalar 0) v ≡ true)
      × (le v (larger scalar (of_nat scalar 0) (minus extent size)) ≡ true)

  clamp-IsWithin : (extent size v : Number) → IsWithin extent size (clamp scalar extent size v)
  unfolding clamp
  clamp-IsWithin extent size v =
      let zero_edge = of_nat scalar 0 in
      let far = larger scalar zero_edge (minus extent size) in
      (
        le-larger zero_edge (smaller scalar v far),
        larger-le zero_edge (smaller scalar v far) far (le-larger zero_edge (minus extent size))
            (smaller-le v far),
      )

  -- A player in the world: within its width, and not above it.
  abbrev pub InWorld : GameEngine scalar → Player scalar → Type 0
  InWorld g p = IsWithin g.world_width p.box.width p.box.x × (le (of_nat scalar 0) p.box.y ≡ true)

  clamp_character-InWorld :
      (g : GameEngine scalar) (p : Player scalar)
      → InWorld g (clamp_character_to_world scalar false g p)
  unfolding clamp_character_to_world
  clamp_character-InWorld g p =
      (clamp-IsWithin g.world_width p.box.width p.box.x, le-larger (of_nat scalar 0) p.box.y)

  -- After the clamp every player in the world stands within the world's width and not above it.
  pub clamp_players_to_world-InWorld :
      (g : GameEngine scalar)
      → AllOf (InWorld g) (clamp_players_to_world scalar g).world_state.characters
  unfolding clamp_players_to_world over_players
  clamp_players_to_world-InWorld g =
      AllOf-over_values (InWorld g) (clamp_character_to_world scalar false g)
        g.world_state.characters (clamp_character-InWorld g)
