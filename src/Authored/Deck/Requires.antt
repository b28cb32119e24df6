-- ===== src/Authored/Deck/Requires.antt =====
-- The loop of `resolve_requirements` of crates/cards/src/deck.rs.
use summoners.Prelude.{
  ℕ, suc, ◌+◌, ◌≤◌, ◌≡◌, refl, sym, ap, subst, ◌∙◌, Bool, true, false, ◌||◌, Option, none, some,
  List, [], ◌∷◌, any, ◌==◌, is_some, ok, guard, ok_or, >>=-eq-ok, guard-eq-ok, ok_or-eq-ok,
  ok-injective, sum_by, if◌then◌else◌, arith, ==_iff,
}
use summoners.Domain.EntityId.{bytes_eq}
use summoners.Authored.Keys.{Text, contains_key, find, insert, stable_key_syntax}
use summoners.Authored.Library.{CardLibrary, set_revision}
use summoners.Authored.DeckError.{DeckPath, DeckStableKeyKind}
use summoners.Authored.Deck.{
  Requirements, SetRequirementDto, require_first, require_stable_key, resolve_requirement,
  resolve_requirements,
}
use summoners.Pool.{bytes_eq_sound}
use summoners.Authored.Maps.{contains-insert, once_more}

-- A requirement is for the revision of a Set that the library has.
pub record IsRequirement (library : CardLibrary) (required : SetRequirementDto) : Type 0 where
  pub key : stable_key_syntax required.set ≡ true
  pub available : set_revision library required.set ≡ some required.revision

abbrev pub AreRequirements : CardLibrary → List SetRequirementDto → Type 0
AreRequirements library [] = Unit {0}
AreRequirements library (required ∷ rest) =
    IsRequirement library required × AreRequirements library rest

-- Whether some requirement names a Set, and how many do.
abbrev pub is_required : Text → List SetRequirementDto → Bool
is_required set requires = any (λ (r : SetRequirementDto). bytes_eq r.set set) requires

abbrev pub named : Text → SetRequirementDto → ℕ
named set required = if bytes_eq required.set set then 1 else 0

module _ (library : CardLibrary) where
  pub record IsTaken (required : SetRequirementDto) (maps next : Requirements) : Type 0 where
    pub holds : IsRequirement library required
    pub first : contains_key required.set maps.paths ≡ false
    pub requirements : next.requirements ≡ insert required.set required.revision maps.requirements
    pub path : DeckPath
    pub paths : next.paths ≡ insert required.set path maps.paths

  require_first-eq-ok :
      (set : Text) (index : ℕ) (found : Option DeckPath) {u : Unit {0}}
      → require_first set index found ≡ ok u
      → is_some found ≡ false
  require_first-eq-ok set index none h = refl
  require_first-eq-ok set index (some first_path) h = cc

  pub resolve_requirement-eq-ok :
      (index : ℕ) (maps : Requirements) (required : SetRequirementDto) (next : Requirements)
      → resolve_requirement library index maps required ≡ ok next
      → IsTaken required maps next
  unfolding resolve_requirement require_stable_key
  resolve_requirement-eq-ok index maps required next h =
      let key = >>=-eq-ok (require_stable_key required.set DeckStableKeyKind.set _) _ h in
      let first =
        >>=-eq-ok (require_first required.set index (find required.set maps.paths)) _ key.2 in
      let available = >>=-eq-ok (ok_or (set_revision library required.set) _) _ first.2 in
      let equal = >>=-eq-ok (guard (available.0 == required.revision) _) _ available.2 in
      let same = (==_iff available.0 required.revision).0 (guard-eq-ok _ _ equal.1) in
      let made = sym (ok-injective refl equal.2) in
      record {
        holds = record {
          key = guard-eq-ok _ _ key.1;
          available = ok_or-eq-ok _ _ available.1 ∙ ap some same;
        };
        first = require_first-eq-ok required.set index _ first.1;
        requirements = ap (λ (m : Requirements). m.requirements) made;
        path = DeckPath.requires index;
        paths = ap (λ (m : Requirements). m.paths) made;
      }

  or_rotate : (b c r : Bool) → ((b || c) || r) ≡ (c || (b || r))
  or_rotate b c r = ground arith

  -- A run of the loop.
  pub record IsTakenAll (requires : List SetRequirementDto) (maps done : Requirements)
      : Type 0 where
    pub hold : AreRequirements library requires
    pub keys :
        (set : Text)
        → contains_key set done.requirements
          ≡ (contains_key set maps.requirements || is_required set requires)
    pub once :
        (set : Text)
        → sum_by (named set) requires + (if contains_key set maps.paths then 1 else 0) ≤ 1

  pub resolve_requirements-eq-ok :
      (index : ℕ) (maps : Requirements) (requires : List SetRequirementDto) (done : Requirements)
      → resolve_requirements library index maps requires ≡ ok done
      → IsTakenAll requires maps done
  unfolding resolve_requirements
  resolve_requirements-eq-ok index maps [] done h =
      subst (λ (made : Requirements). IsTakenAll [] maps made) (ok-injective refl h)
        (record { hold = tt; keys = λ set. ground arith; once = λ set. ground arith })
  resolve_requirements-eq-ok index maps (required ∷ rest) done h =
      let first = >>=-eq-ok (resolve_requirement library index maps required) _ h in
      let taken = resolve_requirement-eq-ok index maps required first.0 first.1 in
      let run = resolve_requirements-eq-ok (suc index) first.0 rest done first.2 in
      record {
        hold = (taken.holds, run.hold);
        keys = λ set.
            run.keys set
            ∙ ap (λ b. b || is_required set rest)
                (ap (contains_key set) taken.requirements
                  ∙ contains-insert set required.set _ maps.requirements)
            ∙ or_rotate (bytes_eq required.set set) _ _;
        once = λ set.
            once_more (bytes_eq required.set set) _ _ _
              (ap (contains_key set) taken.paths
                ∙ contains-insert set required.set taken.path maps.paths)
              (λ e.
                ap (λ k. contains_key k maps.paths) (sym (bytes_eq_sound required.set set e))
                ∙ taken.first)
              (run.once set);
      }
