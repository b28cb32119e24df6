-- ===== src/Scenario/Chains.antt =====
-- The upgrade chains that crates/core/src/scenario.rs builds: `form_of` and `build_chain`.
use summoners.Prelude.{
  ◌+◌, ◌≤◌, ◌<◌, ◌≡◌, refl, subst, true, not, some, List, [], ◌∷◌, ok, guard, ok_or, >>=-eq-ok,
  guard-eq-ok, ok_or-eq-ok, ok-injective, length, arith,
}
use summoners.Domain.Ids.{PlayerId, Position}
use summoners.Domain.Cards.{Form, form_le, form_rank}
use summoners.Domain.Entity.{Entity}
use summoners.Domain.Entity
use summoners.Domain.Field
use summoners.Domain.CardSet
use summoners.Domain.CardSet.{CardSet}
use summoners.Domain.State.{CardRef, UpgradeChain, layers}
use summoners.Scenario.{form_of, check_climb, build_chain}

-- The entity of a card is in the pool, and prints a Form.
abbrev pub PrintsForm : CardSet → CardRef → Form → Type 0
PrintsForm cards card form =
    (entity : Entity) × (CardSet.get cards card.def ≡ some entity)
    × (Entity.get Field.form entity ≡ some form)

-- Each card prints a Form above the one before it.
abbrev pub Climbs : CardSet → Form → List CardRef → Type 0
Climbs cards previous [] = Unit {0}
Climbs cards previous (card ∷ rest) =
    (form : Form) × PrintsForm cards card form
    × (form_rank previous < form_rank form)
    × Climbs cards form rest

abbrev pub IsChain : CardSet → UpgradeChain → Type 0
IsChain cards chain =
    (form : Form) × PrintsForm cards chain.base form × Climbs cards form chain.rest

module _ (cards : CardSet) (player : PlayerId) (at : Position) where
  form_of-eq-ok :
      (card : CardRef) (form : Form)
      → form_of cards card player at ≡ ok form
      → PrintsForm cards card form
  unfolding form_of
  form_of-eq-ok card form h =
      let known = >>=-eq-ok (ok_or (CardSet.get cards card.def) _) _ h in
      (known.0, ok_or-eq-ok _ _ known.1, ok_or-eq-ok _ _ known.2)

  form_of-accepts :
      (card : CardRef) (form : Form)
      → PrintsForm cards card form
      → form_of cards card player at ≡ ok form
  unfolding form_of
  form_of-accepts card form (found, known, printed) = rw (known, printed)

  climbs_above :
      (form previous : Form)
      → not (form_le form previous) ≡ true
      → form_rank previous < form_rank form
  climbs_above form previous h = ground (arith, h)

  above_climbs :
      (form previous : Form)
      → form_rank previous < form_rank form
      → not (form_le form previous) ≡ true
  above_climbs form previous h = ground (arith, h)

  check_climb-eq-ok :
      (previous : Form) (rest : List CardRef) {u : Unit {0}}
      → check_climb cards player at previous rest ≡ ok u
      → Climbs cards previous rest
  unfolding check_climb
  check_climb-eq-ok previous [] h = tt
  check_climb-eq-ok previous (card ∷ rest) h =
      let form = >>=-eq-ok (form_of cards card player at) _ h in
      let above = >>=-eq-ok (guard (not (form_le form.0 previous)) _) _ form.2 in
      (
        form.0,
        form_of-eq-ok card form.0 form.1,
        climbs_above form.0 previous (guard-eq-ok _ _ above.1),
        check_climb-eq-ok form.0 rest above.2,
      )

  check_climb-accepts :
      (previous : Form) (rest : List CardRef)
      → Climbs cards previous rest
      → check_climb cards player at previous rest ≡ ok tt
  unfolding check_climb
  check_climb-accepts previous [] h = refl
  check_climb-accepts previous (card ∷ rest) (form, printed, above, climbs) = rw (
    form_of-accepts card form printed,
    above_climbs form previous above,
    check_climb-accepts form rest climbs,
  )

  -- A chain that is built has the described cards for its layers, the first printing a Form and
  -- each further one a Form above the one under it.
  pub build_chain-eq-ok :
      (refs : List CardRef) (chain : UpgradeChain)
      → build_chain cards player at refs ≡ ok chain
      → (refs ≡ layers chain) × IsChain cards chain
  unfolding build_chain
  build_chain-eq-ok [] chain h = cc
  build_chain-eq-ok (base ∷ rest) chain h =
      let form = >>=-eq-ok (form_of cards base player at) _ h in
      let climbs = >>=-eq-ok (check_climb cards player at form.0 rest) _ form.2 in
      let printed = form_of-eq-ok base form.0 form.1 in
      subst (λ (made : UpgradeChain). (base ∷ rest ≡ layers made) × IsChain cards made)
        (ok-injective refl climbs.2)
        (refl, (form.0, printed, check_climb-eq-ok form.0 rest climbs.1))

  -- The layers of every such chain are built into it again.
  pub build_chain-accepts :
      (chain : UpgradeChain)
      → IsChain cards chain
      → build_chain cards player at (layers chain) ≡ ok chain
  unfolding build_chain
  build_chain-accepts chain (form, printed, climbs) =
      rw (form_of-accepts chain.base form printed, check_climb-accepts form chain.rest climbs)

rank_bound : (form : Form) → form_rank form ≤ 2
rank_bound form = ground arith

Climbs-length :
    (cards : CardSet) (previous : Form) (rest : List CardRef)
    → Climbs cards previous rest
    → form_rank previous + length rest ≤ 2
Climbs-length cards previous [] h = omega (arith, rank_bound previous)
Climbs-length cards previous (card ∷ rest) (form, printed, above, climbs) =
    omega (arith, Climbs-length cards form rest climbs, above)

-- No chain has more than three layers.
pub IsChain-length :
    (cards : CardSet) (chain : UpgradeChain) → IsChain cards chain → length (layers chain) ≤ 3
IsChain-length cards chain (form, printed, climbs) =
    omega (arith, Climbs-length cards form chain.rest climbs)
