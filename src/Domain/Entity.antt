-- ===== src/Domain/Entity.antt =====
-- crates/core/src/domain/cards/entity.rs: `Entity`, `Component` and the typed reads over them, and
-- `family` of domain/cards/mod.rs. `Vec<Component>` is a type of its own, since a component may
-- hold an entity.
use summoners.Prelude.{ℕ, Option, none, some, List, [], ◌∷◌, ok_or, Result, String}
use summoners.Domain.Ids.{ManaType}
use summoners.Domain.EntityId.{EntityId}
use summoners.Domain.Cards.{Cost, EffectLeaf, Form, Modifier, SpellTiming, TriggerEvent}

pub record AccountingId : Type 0 where
  pub prefix : String
  pub number : ℕ

mutual
  pub data Entity : Type 0 where
    entity : EntityId → Components → Entity

  pub data Components : Type 0 where
    nil : Components
    cons : Component → Components → Components

  pub data Component : Type 0 where
    name : String → Component
    accounting_id : AccountingId → Component
    life : ℕ → Component
    retreat_cost : ℕ → Component
    form : Form → Component
    produces : List ManaType → Component
    tags : List String → Component
    cost : Cost → Component
    skill : Entity → Component
    attack : Entity → Component
    trigger : Entity → Component
    effect : EffectLeaf → Component
    passive : Modifier → Component
    timing : SpellTiming → Component
    event : TriggerEvent → Component
    respondable : Component
    persistent : Component

abbrev pub id_of : Entity → EntityId
id_of (Entity.entity i cs) = i

abbrev pub components_of : Entity → Components
components_of (Entity.entity i cs) = cs

pub data ComponentKind : Type 0 where
  name accounting_id life retreat_cost form produces tags cost skill attack trigger effect passive :
      ComponentKind
  timing event respondable persistent : ComponentKind

pub record Breakage : Type 0 where
  pub rule : String
  pub entity : EntityId
  pub expected : ComponentKind

-- The trait `ComponentField` of a marker type; `A` is its `Output`.
pub record ComponentField (A : Type 0) : Type 0 where
  pub component_kind : ComponentKind
  pub extract : Component → Option A

-- `components.iter().find_map(C::extract)`.
unfoldable pub find_component : {A : Type 0} → ComponentField A → Components → Option A
find_component C Components.nil = none
find_component C (Components.cons c cs) = elim (C.extract c) [
  | some a ↦ some a
  | none ↦ find_component C cs
]

-- `components.iter().filter_map(C::extract)`.
unfoldable pub filter_components : {A : Type 0} → ComponentField A → Components → List A
filter_components C Components.nil = []
filter_components C (Components.cons c cs) =
    let rest = filter_components C cs in elim (C.extract c) [ some a ↦ a ∷ rest | none ↦ rest ]

unfoldable pub get : {A : Type 0} → ComponentField A → Entity → Option A
unfolding find_component
get C e = find_component C (components_of e)

unfoldable pub all : {A : Type 0} → ComponentField A → Entity → List A
unfolding filter_components
all C e = filter_components C (components_of e)

unfoldable pub demand : {A : Type 0} → ComponentField A → Entity → String → Result A Breakage
demand C e rule =
    ok_or (get C e) (record { rule = rule; entity = id_of e; expected = C.component_kind })
