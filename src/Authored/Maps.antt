-- ===== src/Authored/Maps.antt =====
-- The laws of the maps and of the qualified keys that crates/cards/src/deck.rs and library.rs use.
use summoners.Prelude.{
  ◌+◌, ◌≤◌, ◌||◌, ℕ, ◌≡◌, refl, sym, ap, ◌∙◌, Bool, true, false, Option, some, List, [], ◌∷◌, ◌++◌,
  ◌==◌, if◌then◌else◌, Bool-cases, inl, inr, arith, ==_iff,
}
use summoners.Domain.EntityId.{bytes_eq}
use summoners.Pool.{bytes_eq_sound}
use summoners.Authored.Keys.{contains_key, Text, find, insert, split_slash}

pub bytes_eq_self : (key : Text) → bytes_eq key key ≡ true
bytes_eq_self [] = refl
bytes_eq_self (c ∷ cs) = rw (bytes_eq_self cs) (ground arith)

-- A key in place of one that it is equal to.
bytes_eq_swap : (a b c : Text) → bytes_eq a b ≡ true → bytes_eq a c ≡ bytes_eq b c
bytes_eq_swap a b c h = ap (λ x. bytes_eq x c) (bytes_eq_sound a b h)

bytes_eq_swap_right : (a b c : Text) → bytes_eq b c ≡ true → bytes_eq a b ≡ bytes_eq a c
bytes_eq_swap_right a b c h = ap (bytes_eq a) (bytes_eq_sound b c h)

module _ {ℓ} {A : Type ℓ} where
  twice :
      (b : Bool) (x y z : Option A) → (if b then x else z) ≡ (if b then x else if b then y else z)
  twice true _ _ _ = refl
  twice false _ _ _ = refl

  -- What is found once a key has been written.
  pub find-insert :
      (key written : Text) (value : A) (entries : List (Text × A))
      → find key (insert written value entries)
        ≡ (if bytes_eq written key then some value else find key entries)
  unfolding find insert
  find-insert key written value [] = refl
  find-insert key written value ((k, old) ∷ entries) = elim (Bool-cases (bytes_eq k written)) [
    | inl e ↦ rw (e, bytes_eq_swap k written key e) (twice (bytes_eq written key) _ _ _)
    | inr e ↦ elim (Bool-cases (bytes_eq written key)) [
      | inl f ↦
          (let apart = sym (bytes_eq_swap_right k written key f) ∙ e in
            rw (e, apart, find-insert key written value entries, f))
      | inr f ↦ rw (e, find-insert key written value entries, f)
    ]
  ]

-- The parts, with the slashes between them again.
unfoldable pub join : Text → List Text → Text
join part [] = part
join part (next ∷ parts) = part ++ b'/' ∷ join next parts

join-cons : (c : ℕ) (part : Text) (parts : List Text) → join (c ∷ part) parts ≡ c ∷ join part parts
unfolding join
join-cons c part [] = refl
join-cons c part (next ∷ parts) = refl

-- Splitting loses nothing: the parts of a text, with slashes between them, are the text again.
pub join-split_slash : (value : Text) → join (split_slash value).0 (split_slash value).1 ≡ value
unfolding join split_slash
join-split_slash [] = refl
join-split_slash (c ∷ cs) = elim (Bool-cases (c == b'/')) [
  | inl e ↦ rw (e, join-split_slash cs) (ap (λ x. x ∷ cs) (sym ((==_iff c b'/').0 e)))
  | inr e ↦
      rw (e)
        (join-cons c (split_slash cs).0 (split_slash cs).1 ∙ ap (λ x. c ∷ x) (join-split_slash cs))
]

-- The keys after a write.
pub contains-insert {ℓ} :
    {A : Type ℓ} (key written : Text) (value : A) (entries : List (Text × A))
    → contains_key key (insert written value entries)
      ≡ (bytes_eq written key || contains_key key entries)
contains-insert key written value entries = elim (Bool-cases (bytes_eq written key)) [
  | inl e ↦ rw (find-insert key written value entries, e)
  | inr e ↦ rw (find-insert key written value entries, e)
]

-- What is counted once so far, with one more that is new.
pub once_more :
    (b c after : Bool) (n : ℕ)
    → after ≡ (b || c)
    → (b ≡ true → c ≡ false)
    → n + (if after then 1 else 0) ≤ 1
    → (if b then 1 else 0) + n + (if c then 1 else 0) ≤ 1
once_more true true after n e apart h = absurd (ground (arith, apart refl))
once_more true false after n e apart h = ground (arith, e, h)
once_more false c after n e apart h = ground (arith, e, h)
