-- ===== src/Handlers/Timing.antt =====
-- The timing and the price of a cast card: `cast_spell` of crates/core/src/engine/stack/mod.rs.
use summoners.Prelude.{
  ◌≡◌, ◌⊎◌, inl, inr, refl, sym, ap, ◌∙◌, true, false, Bool, Option, some, none, ◌&&◌, arith,
  Option-cases, is_none, Bool-cases,
}
use summoners.Domain.Ids.{PlayerId, player_eq}
use summoners.Domain.Cards.{CardKind, Cost, SpellTiming}
use summoners.Domain.Entity
use summoners.Domain.Entity.{Entity}
use summoners.Domain.Field
use summoners.Domain.State.{GameState, Phase, StackWindow, is_main_phase}
use summoners.Engine.Priority
use summoners.Engine.Priority.{attack_responses_blocked, cost_of, is_attack_timing, legal_timing}
use summoners.Engine.Turn.{holds_priority, resting_in_own_main}
use summoners.Rounds.{some-injective}

-- A window is open, and the player holds Priority in it.
abbrev pub HoldsPriority : GameState → PlayerId → Type 0
HoldsPriority s p = (window : StackWindow) × (s.turn.window ≡ some window) × (window.holder ≡ p)

-- No window is open in the player's own Main Phase.
pub record RestsInOwnMain (s : GameState) (p : PlayerId) : Type 0 where
  pub no_window : s.turn.window ≡ none
  pub phase : s.turn.phase ≡ Phase.main
  pub active : s.turn.active_player ≡ p

-- The timing that a card is cast with: a Spell prints it, and an Enchantment has Support timing.
abbrev pub HasTiming : Entity → SpellTiming → Type 0
HasTiming e timing =
    ((Field.family e ≡ CardKind.spell) × (Entity.get Field.timing e ≡ some timing))
    ⊎ ((Field.family e ≡ CardKind.enchantment) × (timing ≡ SpellTiming.support))

-- The cost that a card prints, or nothing.
abbrev pub HasCost : Entity → Cost → Type 0
HasCost e cost =
    (Entity.get Field.cost e ≡ some cost)
    ⊎ ((Entity.get Field.cost e ≡ none)
        × (cost ≡ record { matter = 0; mind = 0; spirit = 0; generic = 0 }))

player_same : (p q : PlayerId) → player_eq p q ≡ true → p ≡ q
player_same PlayerId.one PlayerId.one h = refl
player_same PlayerId.one PlayerId.two h = cc
player_same PlayerId.two PlayerId.one h = cc
player_same PlayerId.two PlayerId.two h = refl

phase_main : (phase : Phase) → is_main_phase phase ≡ true → phase ≡ Phase.main
phase_main Phase.main h = refl
phase_main Phase.upkeep h = cc
phase_main Phase.combat h = cc

holder_of :
    (w : Option StackWindow) (p : PlayerId)
    → holds_priority w p ≡ true
    → (window : StackWindow) × (w ≡ some window) × (window.holder ≡ p)
holder_of none p h = cc
holder_of (some w) p h = (w, refl, player_same w.holder p h)

unopened : (w : Option StackWindow) → is_none w ≡ true → w ≡ none
unopened none h = refl
unopened (some w) h = cc

rests-RestsInOwnMain :
    (s : GameState) (p : PlayerId) → resting_in_own_main s p ≡ true → RestsInOwnMain s p
rests-RestsInOwnMain s p h = record {
  no_window = unopened s.turn.window (ground (arith, h));
  phase = phase_main s.turn.phase (ground (arith, h));
  active = sym (player_same p s.turn.active_player (ground (arith, h)));
}

pub cost_of-HasCost : (e : Entity) → HasCost e (cost_of e)
cost_of-HasCost e = elim (Option-cases (Entity.get Field.cost e)) [
  | inl n ↦ inr (n, rw (n, cost_of))
  | inr (c, k) ↦ (let same : c ≡ cost_of e = rw (k, cost_of) in inl (k ∙ ap some same))
]

pub casting_of-HasTiming :
    (e : Entity) (kind : CardKind) {timing : SpellTiming} {cost : Cost}
    → Field.family e ≡ kind
    → Priority.casting_of e kind ≡ some (timing, cost)
    → HasTiming e timing × (cost ≡ cost_of e)
unfolding Priority.casting_of
casting_of-HasTiming e CardKind.spell {timing} {cost} f h =
    elim (Option-cases (Entity.get Field.timing e)) [
      | inl n ↦ (let m : none ≡ some (timing, cost) = rw (n, Priority.casting_of) at h in cc)
      | inr (t, k) ↦
          (let m : some (t, cost_of e) ≡ some (timing, cost) = rw (k, Priority.casting_of) at h in
            let same = some-injective m refl in
            (
              inl (f, k ∙ ap (λ (x : SpellTiming × Cost). some (x.0)) same),
              sym (ap (λ (x : SpellTiming × Cost). x.1) same),
            ))
    ]
casting_of-HasTiming e CardKind.enchantment f h =
    let same = some-injective h refl in
    (
      inr (f, sym (ap (λ (x : SpellTiming × Cost). x.0) same)),
      sym (ap (λ (x : SpellTiming × Cost). x.1) same),
    )
casting_of-HasTiming e CardKind.summon f h = cc

-- When a card of a timing may be cast: any card by the holder of Priority, and one of Support timing
-- also by a player who rests in the own Main Phase.
abbrev pub IsTimely : GameState → PlayerId → SpellTiming → Type 0
IsTimely s p timing = HoldsPriority s p ⊎ ((timing ≡ SpellTiming.support) × RestsInOwnMain s p)

pub legal-IsTimely :
    (s : GameState) (p : PlayerId) (timing : SpellTiming)
    → legal_timing timing (resting_in_own_main s p) (holds_priority s.turn.window p) ≡ true
    → IsTimely s p timing
legal-IsTimely s p SpellTiming.attack h = inl (holder_of s.turn.window p h)
legal-IsTimely s p SpellTiming.support h = elim (Bool-cases (holds_priority s.turn.window p)) [
  | inl e ↦ inl (holder_of s.turn.window p e)
  | inr e ↦ inr (refl, rests-RestsInOwnMain s p (ground (arith, h, e)))
]

-- An Attack Spell that is timely is cast by the holder of Priority, hence not against a block.
pub attack-unblocked :
    (timing : SpellTiming) (resting holds blocked : Bool)
    → legal_timing timing resting holds ≡ true
    → (is_attack_timing timing && holds && blocked) ≡ false
    → timing ≡ SpellTiming.attack
    → blocked ≡ false
attack-unblocked SpellTiming.attack resting holds blocked h k e = ground (arith, h, k)
attack-unblocked SpellTiming.support resting holds blocked h k e = cc
