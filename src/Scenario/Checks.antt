-- ===== src/Scenario/Checks.antt =====
-- The two passes over the whole board of crates/core/src/scenario.rs, `check_no_duplicate_instances`
-- and `check_every_def_known`, described by what each list of cards is like when it passes.
use summoners.Prelude.{
  ℕ, ◌+◌, ◌≤◌, ◌≡◌, refl, sym, ap, ◌∙◌, true, false, not, List, [], ◌∷◌, ◌==◌, any, sum_by, ok,
  guard, is_some, >>=-eq-ok, guard-eq-ok, negated, arith, if◌then◌else◌, Bool-cases, inl, inr,
}
use summoners.Domain.Ids.{CardInstanceId}
use summoners.Domain.CardSet
use summoners.Domain.CardSet.{CardSet}
use summoners.Domain.State.{CardRef}
use summoners.Scenario.{check_unseen, check_known}

-- How many of some cards have an instance id.
abbrev pub one_of : CardInstanceId → CardRef → ℕ
one_of instance_id card = if card.instance_id == instance_id then 1 else 0

-- No instance id stands twice.
abbrev pub AreDistinct : List CardRef → Type 0
AreDistinct refs = (instance_id : CardInstanceId) → sum_by (one_of instance_id) refs ≤ 1

abbrev pub AreKnown : CardSet → List CardRef → Type 0
AreKnown cards [] = Unit {0}
AreKnown cards (card ∷ refs) = (is_some (CardSet.get cards card.def) ≡ true) × AreKnown cards refs

count : CardInstanceId → List CardInstanceId → ℕ
count n [] = 0
count n (m ∷ seen) = (if m == n then 1 else 0) + count n seen

-- The ids seen and those that follow, each at most once.
Fresh : List CardInstanceId → List CardRef → Type 0
Fresh seen refs = (n : CardInstanceId) → count n seen + sum_by (one_of n) refs ≤ 1

absent :
    (n : CardInstanceId) (seen : List CardInstanceId)
    → any (λ m. m == n) seen ≡ false
    → count n seen ≡ 0
unfolding count
absent n [] h = refl
absent n (m ∷ seen) h = ground (arith, absent n seen, h)

present :
    (n : CardInstanceId) (seen : List CardInstanceId)
    → count n seen ≡ 0
    → any (λ m. m == n) seen ≡ false
unfolding count
present n [] h = refl
present n (m ∷ seen) h = ground (arith, present n seen, h)

AtMostOnce : List CardInstanceId → Type 0
AtMostOnce seen = (n : CardInstanceId) → count n seen ≤ 1

AtMostOnce-cons :
    (m : CardInstanceId) (seen : List CardInstanceId)
    → AtMostOnce seen
    → count m seen ≡ 0
    → AtMostOnce (m ∷ seen)
unfolding AtMostOnce count
AtMostOnce-cons m seen once none_yet n = elim (Bool-cases (m == n)) [
  | inl e ↦
      let same : m ≡ n = ground (arith, e) in
      let absent_too : count n seen ≡ 0 = ap (λ k. count k seen) (sym same) ∙ none_yet in
      ground (arith, absent_too)
  | inr e ↦ ground (arith, e, once n)
]

one_of_self : (card : CardRef) → one_of card.instance_id card ≡ 1
one_of_self card = ground arith

check_unseen-Fresh :
    (seen : List CardInstanceId) (refs : List CardRef) {u : Unit {0}}
    → AtMostOnce seen
    → check_unseen seen refs ≡ ok u
    → Fresh seen refs
unfolding check_unseen Fresh AtMostOnce count
check_unseen-Fresh seen [] once h n = omega (arith, once n)
check_unseen-Fresh seen (card ∷ refs) once h n =
    let new = >>=-eq-ok (guard (not (any (λ m. m == card.instance_id) seen)) _) _ h in
    let none_yet = absent card.instance_id seen (negated _ (guard-eq-ok _ _ new.1)) in
    let rest =
      check_unseen-Fresh (card.instance_id ∷ seen) refs
        (AtMostOnce-cons card.instance_id seen once none_yet) new.2 n in
    omega (arith, rest)

Fresh-check_unseen :
    (seen : List CardInstanceId) (refs : List CardRef)
    → Fresh seen refs
    → check_unseen seen refs ≡ ok tt
unfolding check_unseen Fresh count
Fresh-check_unseen seen [] h = refl
Fresh-check_unseen seen (card ∷ refs) h =
    let new = present card.instance_id seen (omega (arith, h card.instance_id, one_of_self card)) in
    rw (new, Fresh-check_unseen (card.instance_id ∷ seen) refs (λ n. omega (arith, h n)))

pub check_unseen-eq-ok :
    (refs : List CardRef) {u : Unit {0}} → check_unseen [] refs ≡ ok u → AreDistinct refs
unfolding Fresh count AtMostOnce
check_unseen-eq-ok refs h n = omega (arith, check_unseen-Fresh [] refs (λ m. omega arith) h n)

pub check_unseen-accepts : (refs : List CardRef) → AreDistinct refs → check_unseen [] refs ≡ ok tt
unfolding Fresh count
check_unseen-accepts refs h = Fresh-check_unseen [] refs (λ n. omega (arith, h n))

pub check_known-eq-ok :
    (cards : CardSet) (refs : List CardRef) {u : Unit {0}}
    → check_known cards refs ≡ ok u
    → AreKnown cards refs
unfolding check_known
check_known-eq-ok cards [] h = tt
check_known-eq-ok cards (card ∷ refs) h =
    let known = >>=-eq-ok (guard (is_some (CardSet.get cards card.def)) _) _ h in
    (guard-eq-ok _ _ known.1, check_known-eq-ok cards refs known.2)

pub check_known-accepts :
    (cards : CardSet) (refs : List CardRef) → AreKnown cards refs → check_known cards refs ≡ ok tt
unfolding check_known
check_known-accepts cards [] h = refl
check_known-accepts cards (card ∷ refs) (known, rest) =
    rw (known, check_known-accepts cards refs rest)
