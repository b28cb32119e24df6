-- ===== src/Domain/Mana.antt =====
-- crates/core/src/domain/state.rs: `ManaBank`, apart because the errors name it too.
use summoners.Prelude.{ℕ}

pub record ManaBank : Type 0 where
  pub matter : ℕ
  pub mind : ℕ
  pub spirit : ℕ

-- `ManaBank::default()`.
abbrev pub empty_bank : ManaBank
empty_bank = record { matter = 0; mind = 0; spirit = 0 }
