-- ===== src/Domain/State.antt =====
-- crates/core/src/domain/state.rs: the whole match as one value. The Stack and its segment bases
-- are `Vec`s used from the end, and are kept here with the end first; an index into the Stack
-- still counts from its bottom. `work` is a queue with its front first.
use summoners.Prelude.{ℕ, Bool, true, false, Option, none, List, [], ◌∷◌, ◌++◌}
use summoners.Prelude.Arrays.{Array, get_at, set_at}
use summoners.Domain.Ids.{PlayerId, CardInstanceId, Position, index}
use summoners.Domain.EntityId.{EntityId}
use summoners.Domain.Cards.{EffectLeaf, TriggerEvent}
use summoners.Domain.Entity.{Breakage}
use summoners.Domain.CardSet.{CardSet}
use summoners.Domain.Mana.{ManaBank}

pub record CardRef : Type 0 where
  pub instance_id : CardInstanceId
  pub def : EntityId

pub record UpgradeChain : Type 0 where
  pub base : CardRef
  pub rest : List CardRef

last_or : CardRef → List CardRef → CardRef
last_or c [] = c
last_or c (x ∷ xs) = last_or x xs

unfoldable pub top : UpgradeChain → CardRef
unfolding last_or
top c = last_or c.base c.rest

abbrev pub layers : UpgradeChain → List CardRef
layers c = c.base ∷ c.rest

pub data DurationMarker : Type 0 where
  cannot_be_moved_by_opponent : DurationMarker

pub data UpgradeActivity : Type 0 where
  available played_this_turn upgraded_this_turn : UpgradeActivity

pub data EnteredMain : Type 0 where
  entered_main : EnteredMain

pub record SummonTurnRecord : Type 0 where
  pub upgrade : UpgradeActivity
  pub main_entry : Option EnteredMain

abbrev pub fresh : SummonTurnRecord
fresh = record { upgrade = UpgradeActivity.available; main_entry = none }

pub data Readiness : Type 0 where
  ready exhausted : Readiness

pub record SummonInstance : Type 0 where
  pub chain : UpgradeChain
  pub damage : ℕ
  pub readiness : Readiness
  pub owner : PlayerId
  pub controller : PlayerId
  pub duration_markers : List DurationMarker
  pub turn : SummonTurnRecord

pub data Coin : Type 0 where
  coin : Coin

pub record PlayerState : Type 0 where
  pub main : Option SummonInstance
  pub bench : Array (Option SummonInstance)
  pub deck : List CardRef
  pub hand : List CardRef
  pub prizes : List CardRef
  pub discard : List CardRef
  pub mana : ManaBank
  pub main_losses : ℕ
  pub enchantments : List CardRef

pub record PerPlayer {ℓ} (A : Type ℓ) : Type ℓ where
  pub one : A
  pub two : A

abbrev pub get {ℓ} : {A : Type ℓ} → PerPlayer A → PlayerId → A
get p PlayerId.one = p.one
get p PlayerId.two = p.two

-- What `get_mut` does once it has been written through.
abbrev pub put {ℓ} : {A : Type ℓ} → PerPlayer A → PlayerId → A → PerPlayer A
put p PlayerId.one a = record p { one = a }
put p PlayerId.two a = record p { two = a }

pub record StackWindow : Type 0 where
  pub holder : PlayerId
  pub prior_pass : Bool

pub data Phase : Type 0 where
  upkeep main combat : Phase

abbrev pub is_main_phase : Phase → Bool
is_main_phase Phase.main = true
is_main_phase _ = false

pub record TurnState : Type 0 where
  pub active_player : PlayerId
  pub phase : Phase
  pub window : Option StackWindow
  pub normal_attack_used : Bool
  pub normal_retreat_used : Bool
  pub spell_played_this_turn : PerPlayer Bool

pub data ManaSource : Type 0 where
  player : ManaSource
  summon : Position → ManaSource

pub data PendingInput : Type 0 where
  mana_production : PlayerId → ManaSource → PendingInput
  promotion : PlayerId → PendingInput
  prize_pick : PlayerId → PendingInput

pub data LossReason : Type 0 where
  third_main_loss no_promotion_available empty_deck_draw resignation : LossReason

pub record GameOutcome : Type 0 where
  pub winner : PlayerId
  pub reason : LossReason

pub data GameStatus : Type 0 where
  playing : GameStatus
  ended : GameOutcome → GameStatus
  broken : Breakage → GameStatus

abbrev pub is_playing : GameStatus → Bool
is_playing GameStatus.playing = true
is_playing _ = false

pub data StackItem : Type 0 where
  attack : PlayerId → Position → StackItem
  spell : PlayerId → CardRef → List Position → StackItem
  trigger :
      PlayerId → Position → EntityId → TriggerEvent → List Position → List EffectLeaf → StackItem

pub data MovementStep : Type 0 where
  leaving_main entering_bench leaving_bench entering_main : MovementStep

pub data WorkItem : Type 0 where
  destruction_check : Position → WorkItem
  discard_destroyed_chain : Position → WorkItem
  record_main_loss : PlayerId → WorkItem
  recover_prize : PlayerId → WorkItem
  promote_bench_summon : PlayerId → WorkItem
  resolve_movement_consequences : PlayerId → WorkItem
  movement_trigger : MovementStep → PlayerId → Position → WorkItem
  fire_trigger : PlayerId → Position → TriggerEvent → EntityId → WorkItem
  loss_check : PlayerId → WorkItem
  ready_all : WorkItem
  draw_card : WorkItem
  produce_mana : PlayerId → ManaSource → WorkItem
  begin_main_phase : WorkItem

pub record GameState : Type 0 where
  pub players : PerPlayer PlayerState
  pub coin : Option Coin
  pub turn : TurnState
  pub stack : List StackItem
  pub stack_segment_bases : List ℕ
  pub work : List WorkItem
  pub pending : Option PendingInput
  pub status : GameStatus
  pub cards : CardSet

unfoldable pub break_game : GameState → Breakage → GameState
break_game s b = record s { status = GameStatus.broken b }

-- The Summon at a position, if any; each engine module of the source has this read.
abbrev pub summon_at : PlayerState → Position → Option SummonInstance
summon_at ps Position.main = ps.main
summon_at ps (Position.bench slot) = get_at ps.bench (index slot)

-- The board with what stands at a position replaced: a write through `summon_at_mut`.
abbrev pub set_summon : PlayerState → Position → Option SummonInstance → PlayerState
set_summon ps Position.main o = record ps { main = o }
set_summon ps (Position.bench slot) o = record ps { bench = set_at ps.bench (index slot) o }

-- The state with one player's zones replaced: a write through `players.get_mut`.
abbrev pub with_player : GameState → PlayerId → PlayerState → GameState
with_player s p ps = record s { players = put s.players p ps }

-- `work.push_back` and `work.push_front`, of several items in the order they will run.
abbrev pub push_back : GameState → List WorkItem → GameState
push_back s items = record s { work = s.work ++ items }

abbrev pub push_front : GameState → List WorkItem → GameState
push_front s items = record s { work = items ++ s.work }
