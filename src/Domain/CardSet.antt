-- ===== src/Domain/CardSet.antt =====
-- crates/core/src/domain/cards/set.rs: the card pool and its index by id. `HashMap` is an
-- association list; `entry().or_insert()` keeps the entry that is there. The second index, by
-- accounting code, is read by no rule of the engine and is left out.
use summoners.Prelude.{
  ℕ, suc, Option, none, some, List, [], ◌∷◌, ◌++◌, get_elem?, if◌then◌else◌, is_some,
}
use summoners.Domain.EntityId.{EntityId, id_eq}
use summoners.Domain.Entity.{Entity, id_of}

pub record CardSet : Type 0 where
  pub entities : List Entity
  pub by_id : List (EntityId × ℕ)

unfoldable pub lookup : EntityId → List (EntityId × ℕ) → Option ℕ
lookup i [] = none
lookup i ((j, n) ∷ m) = if id_eq j i then some n else lookup i m

unfoldable pub or_insert : EntityId → ℕ → List (EntityId × ℕ) → List (EntityId × ℕ)
unfolding lookup
or_insert i n m = if is_some (lookup i m) then m else m ++ (i, n) ∷ []

-- The loop of `CardSet::new` over the entities from `index` on.
unfoldable pub index_from : ℕ → List Entity → List (EntityId × ℕ) → List (EntityId × ℕ)
unfolding or_insert
index_from n [] m = m
index_from n (e ∷ es) m = index_from (suc n) es (or_insert (id_of e) n m)

unfoldable pub new : List Entity → CardSet
unfolding index_from
new es = record { entities = es; by_id = index_from 0 es [] }

unfoldable pub get : CardSet → EntityId → Option Entity
unfolding lookup
get cs i = elim (lookup i cs.by_id) [ none ↦ none | some n ↦ get_elem? cs.entities n ]
