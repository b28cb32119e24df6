-- ===== src/Examples/Match.antt =====
-- A card pool of two Forms of a Summon and a Spell, and a match between two players.
use summoners.Prelude.{true, false, none, some, [], ◌∷◌}
use summoners.Domain.Ids.{PlayerId, CardInstanceId, Position, ManaType}
use summoners.Domain.EntityId.{EntityId}
use summoners.Domain.Cards.{
  Cost, DamageConstraints, EffectCondition, EffectLeaf, Form, SpellTiming, no_constraints,
}
use summoners.Domain.Entity.{Entity, Components, Component}
use summoners.Domain.CardSet.{CardSet}
use summoners.Domain.Events.{DamageSource}
use summoners.Engine.Damage.{DamageIntent}
use summoners.Domain.State.{
  GameState, PlayerState, SummonInstance, CardRef, Coin, StackItem, WorkItem, Phase, Readiness,
  GameStatus, fresh,
}

abbrev pub lynx_id : EntityId
lynx_id = record { bytes = 1 ∷ [] }

abbrev pub bolt_id : EntityId
bolt_id = record { bytes = 2 ∷ [] }

abbrev pub hit : EffectLeaf
hit = EffectLeaf.deal_damage (record { base = 30; constraints = no_constraints; additions = [] })

abbrev pub one_generic : Cost
one_generic = record { matter = 0; mind = 0; spirit = 0; generic = 1 }

abbrev pub claw : Entity
claw =
    Entity.entity (record { bytes = 11 ∷ [] })
      (Components.cons (Component.cost one_generic)
        (Components.cons (Component.effect hit) Components.nil))

-- A Base Form with 30 Life, whose Attack deals 30.
abbrev pub lynx : Entity
lynx = Entity.entity lynx_id (
    Components.cons (Component.life 30) (
      Components.cons (Component.retreat_cost 1) (
        Components.cons (Component.form Form.base) (
          Components.cons (Component.produces (ManaType.matter ∷ []))
            (Components.cons (Component.attack claw) Components.nil)))))

-- An Attack Spell that deals 30.
abbrev pub bolt : Entity
bolt = Entity.entity bolt_id (
    Components.cons (Component.tags ("spell" ∷ [])) (
      Components.cons (Component.timing SpellTiming.attack)
        (Components.cons (Component.effect hit) Components.nil)))

abbrev pub great_lynx_id : EntityId
great_lynx_id = record { bytes = 3 ∷ [] }

-- An Enhanced Form over the lynx.
abbrev pub great_lynx : Entity
great_lynx = Entity.entity great_lynx_id (
    Components.cons (Component.life 60) (
      Components.cons (Component.form Form.enhanced) (
        Components.cons (Component.produces (ManaType.mind ∷ ManaType.matter ∷ []))
          Components.nil)))

abbrev pub pool : CardSet
pool = record {
  entities = lynx ∷ bolt ∷ great_lynx ∷ [];
  by_id = (lynx_id, 0) ∷ (bolt_id, 1) ∷ (great_lynx_id, 2) ∷ [];
}

abbrev pub lynx_card : CardInstanceId → CardRef
lynx_card i = record { instance_id = i; def = lynx_id }

abbrev pub bolt_card : CardInstanceId → CardRef
bolt_card i = record { instance_id = i; def = bolt_id }

abbrev pub standing : PlayerId → CardInstanceId → SummonInstance
standing p i = record {
  chain = record { base = lynx_card i; rest = [] };
  damage = 0;
  readiness = Readiness.ready;
  owner = p;
  controller = p;
  duration_markers = [];
  turn = fresh;
}

abbrev pub player_one : PlayerState
player_one = record {
  main = some (standing PlayerId.one 1);
  bench = record { at0 = none; at1 = none; at2 = none };
  deck = lynx_card 2 ∷ [];
  hand = bolt_card 3 ∷ lynx_card 4 ∷ record { instance_id = 8; def = great_lynx_id } ∷ [];
  prizes = lynx_card 5 ∷ lynx_card 6 ∷ [];
  discard = [];
  mana = record { matter = 2; mind = 1; spirit = 0 };
  main_losses = 0;
  enchantments = [];
}

abbrev pub player_two : PlayerState
player_two = record {
  main = some (standing PlayerId.two 11);
  bench = record {
    at0 = some (standing PlayerId.two 12);
    at1 = some (standing PlayerId.two 13);
    at2 = none;
  };
  deck = lynx_card 14 ∷ [];
  hand = bolt_card 15 ∷ [];
  prizes = lynx_card 16 ∷ lynx_card 17 ∷ [];
  discard = [];
  mana = record { matter = 1; mind = 0; spirit = 0 };
  main_losses = 0;
  enchantments = [];
}

-- Player one's Main Phase.
abbrev pub opening : GameState
opening = record {
  players = record { one = player_one; two = player_two };
  coin = some Coin.coin;
  turn = record {
    active_player = PlayerId.one;
    phase = Phase.main;
    window = none;
    normal_attack_used = false;
    normal_retreat_used = false;
    spell_played_this_turn = record { one = false; two = false };
  };
  stack = [];
  stack_segment_bases = [];
  work = [];
  pending = none;
  status = GameStatus.playing;
  cards = pool;
}

-- Player one has answered the declared attack with a Bolt of its own, and one pass is in.
abbrev pub double_strike : GameState
double_strike = record opening {
  turn = record (opening.turn) {
    phase = Phase.combat;
    window = some (record { holder = PlayerId.one; prior_pass = true });
    normal_attack_used = true;
  };
  stack =
      StackItem.spell PlayerId.one (bolt_card 7) (Position.main ∷ [])
      ∷ StackItem.attack PlayerId.one Position.main
      ∷ [];
}

-- The window over the Bolt and the attack has closed, and work is queued.
abbrev pub pressed : GameState
pressed = record double_strike {
  turn = record (double_strike.turn) { window = none };
  work = WorkItem.ready_all ∷ [];
}

-- Player one holds Priority after its declared attack.
abbrev pub answering : GameState
answering = record opening {
  turn = record (opening.turn) {
    phase = Phase.combat;
    window = some (record { holder = PlayerId.one; prior_pass = false });
    normal_attack_used = true;
  };
  stack = StackItem.attack PlayerId.one Position.main ∷ [];
}

-- Player two's Main has taken Damage up to its Life.
abbrev pub wounded : GameState
wounded = record opening {
  players = record (opening.players) {
    two = record player_two { main = some (record (standing PlayerId.two 11) { damage = 30 }) };
  };
}

-- A Promotion is due to player two, whose Main still stands and whose Bench holds one Summon.
abbrev pub crowded : GameState
crowded = record opening {
  players = record (opening.players) {
    two = record player_two {
      bench = record { at0 = some (standing PlayerId.two 12); at1 = none; at2 = none };
    };
  };
  work = WorkItem.promote_bench_summon PlayerId.two ∷ [];
}

abbrev pub struck_at : DamageConstraints → DamageIntent
struck_at constraints = record {
  context = record {
    source = DamageSource.attack PlayerId.one Position.main (record { bytes = 11 ∷ [] });
    target = record { controller = PlayerId.two; position = Position.main };
  };
  effect = record {
    base = 30;
    constraints = constraints;
    additions = record { amount = 10; condition = EffectCondition.spell_played_this_turn } ∷ [];
  };
}

-- The state of `opening` after player one has cast a Spell.
abbrev pub charged : GameState
charged = record opening {
  turn = record (opening.turn) { spell_played_this_turn = record { one = true; two = false } };
}
