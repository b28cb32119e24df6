-- ===== src/Halting/Quiet.antt =====
-- A card pool without Triggered Abilities, and what the reads of engine/triggers/mod.rs find in it.
use summoners.Prelude.{
  ◌≡◌, refl, Bool, true, none, some, List, [], ◌∷◌, inl, inr, Option-cases, flat_map, all,
  get_elem?, all-get_elem?, is_empty, is_empty-nil,
}
use summoners.Domain.Ids.{PlayerId, Position}
use summoners.Domain.EntityId.{EntityId}
use summoners.Domain.Cards.{TriggerEvent}
use summoners.Domain.Entity
use summoners.Domain.Entity.{Entity, id_of}
use summoners.Domain.Field
use summoners.Domain.CardSet
use summoners.Domain.CardSet.{CardSet}
use summoners.Domain.State.{GameState, get, summon_at, top}
use summoners.Engine.Triggers.{ability_at, candidates, card_at, fire_items, matching_abilities}
use summoners.Engine.Upkeep.{controlled_positions}

-- No entity that the pool holds prints a Triggered Ability.
pub IsTriggerFree : CardSet → Type 0
IsTriggerFree cards =
    (i : EntityId) (e : Entity) → CardSet.get cards i ≡ some e → Entity.all Field.trigger e ≡ []

card_at-untriggered :
    (s : GameState) (p : PlayerId) (at : Position) {e : Entity}
    → IsTriggerFree s.cards
    → card_at s p at ≡ some e
    → Entity.all Field.trigger e ≡ []
unfolding card_at IsTriggerFree
card_at-untriggered s p at {e} q h = elim (Option-cases (summon_at (get s.players p) at)) [
  | inl f ↦ (let k : none ≡ some e = rw (f, card_at) at h in cc)
  | inr (x, f) ↦
      (let k : CardSet.get s.cards (top x.chain).def ≡ some e = rw (f, card_at) at h in q _ e k)
]

pub fire_items-nil :
    (s : GameState) (p : PlayerId) (at : Position) (event : TriggerEvent)
    → IsTriggerFree s.cards
    → fire_items s p at event ≡ []
unfolding fire_items matching_abilities
fire_items-nil s p at event q = elim (Option-cases (card_at s p at)) [
  | inl f ↦ rw (f, matching_abilities)
  | inr (e, f) ↦ rw (f, matching_abilities, card_at-untriggered s p at q f)
]

flat_map-nil :
    {A B : Type 0} (f : A → List B) (xs : List A) → ((x : A) → f x ≡ []) → flat_map f xs ≡ []
flat_map-nil f [] h = refl
flat_map-nil f (x ∷ xs) h = rw (h x) (flat_map-nil f xs h)

pub candidates-nil :
    (s : GameState) (players : List PlayerId) (event : TriggerEvent)
    → IsTriggerFree s.cards
    → candidates s players event ≡ []
unfolding candidates
candidates-nil s players event q = flat_map-nil _ players (λ p.
    flat_map-nil _ (controlled_positions (get s.players p)) (λ at. fire_items-nil s p at event q))

pub ability_at-none :
    (s : GameState) (p : PlayerId) (at : Position) (ability : EntityId)
    → IsTriggerFree s.cards
    → ability_at s p at ability ≡ none
unfolding ability_at
ability_at-none s p at ability q = elim (Option-cases (card_at s p at)) [
  | inl f ↦ rw (f, ability_at)
  | inr (e, f) ↦ rw (f, ability_at, card_at-untriggered s p at q f)
]

abbrev pub prints_no_trigger : Entity → Bool
prints_no_trigger e = is_empty (Entity.all Field.trigger e)

-- A pool each of whose entities prints none.
pub IsTriggerFree-entities :
    (cards : CardSet) → all prints_no_trigger cards.entities ≡ true → IsTriggerFree cards
unfolding IsTriggerFree CardSet.get
IsTriggerFree-entities cards h i e found = elim (Option-cases (CardSet.lookup i cards.by_id)) [
  | inl f ↦ (let k : none ≡ some e = rw (f, CardSet.get) at found in cc)
  | inr (n, f) ↦
      (let k : get_elem? cards.entities n ≡ some e = rw (f, CardSet.get) at found in
        is_empty-nil _ (all-get_elem? prints_no_trigger cards.entities n h k))
]
