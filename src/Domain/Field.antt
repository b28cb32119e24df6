-- ===== src/Domain/Field.antt =====
-- crates/core/src/domain/cards/entity.rs: one `ComponentField` implementation for each component,
-- and `family` of domain/cards/mod.rs, which reads the tags.
use text.Mathlib.Text.{◌==◌ as str_eq}
use summoners.Prelude.{ℕ, Option, none, some, List, any, String, if◌then◌else◌}
use summoners.Domain.Ids.{ManaType}
use summoners.Domain.Cards.{Cost, EffectLeaf, Form, Modifier, SpellTiming, TriggerEvent, CardKind}
use summoners.Domain.Entity.{Entity, Component, ComponentKind, ComponentField, AccountingId, get}

name_of : Component → Option String
name_of (Component.name x) = some x
name_of _ = none

unfoldable pub name : ComponentField String
unfolding name_of
name = record { component_kind = ComponentKind.name; extract = name_of }

accounting_id_of : Component → Option AccountingId
accounting_id_of (Component.accounting_id x) = some x
accounting_id_of _ = none

unfoldable pub accounting_id : ComponentField AccountingId
unfolding accounting_id_of
accounting_id = record { component_kind = ComponentKind.accounting_id; extract = accounting_id_of }

life_of : Component → Option ℕ
life_of (Component.life x) = some x
life_of _ = none

unfoldable pub life : ComponentField ℕ
unfolding life_of
life = record { component_kind = ComponentKind.life; extract = life_of }

retreat_cost_of : Component → Option ℕ
retreat_cost_of (Component.retreat_cost x) = some x
retreat_cost_of _ = none

unfoldable pub retreat_cost : ComponentField ℕ
unfolding retreat_cost_of
retreat_cost = record { component_kind = ComponentKind.retreat_cost; extract = retreat_cost_of }

form_of : Component → Option Form
form_of (Component.form x) = some x
form_of _ = none

unfoldable pub form : ComponentField Form
unfolding form_of
form = record { component_kind = ComponentKind.form; extract = form_of }

produces_of : Component → Option (List ManaType)
produces_of (Component.produces x) = some x
produces_of _ = none

unfoldable pub produces : ComponentField (List ManaType)
unfolding produces_of
produces = record { component_kind = ComponentKind.produces; extract = produces_of }

tags_of : Component → Option (List String)
tags_of (Component.tags x) = some x
tags_of _ = none

unfoldable pub tags : ComponentField (List String)
unfolding tags_of
tags = record { component_kind = ComponentKind.tags; extract = tags_of }

cost_of : Component → Option Cost
cost_of (Component.cost x) = some x
cost_of _ = none

unfoldable pub cost : ComponentField Cost
unfolding cost_of
cost = record { component_kind = ComponentKind.cost; extract = cost_of }

skill_of : Component → Option Entity
skill_of (Component.skill x) = some x
skill_of _ = none

unfoldable pub skill : ComponentField Entity
unfolding skill_of
skill = record { component_kind = ComponentKind.skill; extract = skill_of }

attack_of : Component → Option Entity
attack_of (Component.attack x) = some x
attack_of _ = none

unfoldable pub attack : ComponentField Entity
unfolding attack_of
attack = record { component_kind = ComponentKind.attack; extract = attack_of }

trigger_of : Component → Option Entity
trigger_of (Component.trigger x) = some x
trigger_of _ = none

unfoldable pub trigger : ComponentField Entity
unfolding trigger_of
trigger = record { component_kind = ComponentKind.trigger; extract = trigger_of }

effect_of : Component → Option EffectLeaf
effect_of (Component.effect x) = some x
effect_of _ = none

unfoldable pub effect : ComponentField EffectLeaf
unfolding effect_of
effect = record { component_kind = ComponentKind.effect; extract = effect_of }

passive_of : Component → Option Modifier
passive_of (Component.passive x) = some x
passive_of _ = none

unfoldable pub passive : ComponentField Modifier
unfolding passive_of
passive = record { component_kind = ComponentKind.passive; extract = passive_of }

timing_of : Component → Option SpellTiming
timing_of (Component.timing x) = some x
timing_of _ = none

unfoldable pub timing : ComponentField SpellTiming
unfolding timing_of
timing = record { component_kind = ComponentKind.timing; extract = timing_of }

event_of : Component → Option TriggerEvent
event_of (Component.event x) = some x
event_of _ = none

unfoldable pub event : ComponentField TriggerEvent
unfolding event_of
event = record { component_kind = ComponentKind.event; extract = event_of }

respondable_of : Component → Option (Unit {0})
respondable_of Component.respondable = some tt
respondable_of _ = none

unfoldable pub respondable : ComponentField (Unit {0})
unfolding respondable_of
respondable = record { component_kind = ComponentKind.respondable; extract = respondable_of }

persistent_of : Component → Option (Unit {0})
persistent_of Component.persistent = some tt
persistent_of _ = none

unfoldable pub persistent : ComponentField (Unit {0})
unfolding persistent_of
persistent = record { component_kind = ComponentKind.persistent; extract = persistent_of }

-- The tests of `family` on the tags it found.
kind_of_tags : Option (List String) → CardKind
kind_of_tags none = CardKind.summon
kind_of_tags (some ts) =
    if any (λ tag. str_eq tag "spell") ts
    then CardKind.spell
    else if any (λ tag. str_eq tag "enchantment") ts
    then CardKind.enchantment
    else CardKind.summon

unfoldable pub family : Entity → CardKind
unfolding kind_of_tags
family e = kind_of_tags (get tags e)
