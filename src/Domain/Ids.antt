-- ===== src/Domain/Ids.antt =====
-- crates/core/src/domain/ids.rs: players, card instances, positions and Mana Types.
use summoners.Prelude.{ℕ, Bool, true, false, List, [], ◌∷◌}
use summoners.Prelude.Arrays.{Index}

pub data PlayerId : Type 0 where
  one two : PlayerId

abbrev pub opponent : PlayerId → PlayerId
opponent PlayerId.one = PlayerId.two
opponent PlayerId.two = PlayerId.one

-- The derived `==` of the enums.
abbrev pub player_eq : PlayerId → PlayerId → Bool
player_eq PlayerId.one PlayerId.one = true
player_eq PlayerId.two PlayerId.two = true
player_eq _ _ = false

-- `CardInstanceId(u32)`.
abbrev pub CardInstanceId : Type 0
CardInstanceId = ℕ

pub data BenchSlot : Type 0 where
  first second third : BenchSlot

abbrev pub all_slots : List BenchSlot
all_slots = BenchSlot.first ∷ BenchSlot.second ∷ BenchSlot.third ∷ []

abbrev pub index : BenchSlot → Index
index BenchSlot.first = Index.i0
index BenchSlot.second = Index.i1
index BenchSlot.third = Index.i2

pub data Position : Type 0 where
  main : Position
  bench : BenchSlot → Position

abbrev pub is_main : Position → Bool
is_main Position.main = true
is_main (Position.bench _) = false

pub data ManaType : Type 0 where
  matter mind spirit : ManaType

abbrev pub mana_type_eq : ManaType → ManaType → Bool
mana_type_eq ManaType.matter ManaType.matter = true
mana_type_eq ManaType.mind ManaType.mind = true
mana_type_eq ManaType.spirit ManaType.spirit = true
mana_type_eq _ _ = false
