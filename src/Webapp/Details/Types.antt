-- ===== src/Webapp/Details/Types.antt =====
-- The types of a signature: the split of packages/nouns-webapp/src/wrappers/nounsDao.ts and the one
-- by the depth of the parentheses.
use unouns_monorepo.Base.{
  ℕ, suc, ◌-◌, Bool, true, false, not, ◌&&◌, List, [], ◌∷◌, ◌==◌, if◌then◌else◌, ◌≡◌, refl, arith,
  ap, ◌∙◌, some, sym, ◌++◌, append_assoc,
}
use unouns_monorepo.Base.Text.{Text, onto_first}
use unouns_monorepo.Webapp.Details.{closes_first, split_types, without_last, split_signature}

-- what a code unit is in a list of types
pub data Sign : Type 0 where
  opening closing comma other : Sign

abbrev pub sign : ℕ → Sign
sign c =
    if c == b'(' then opening else if c == b')' then closing else if c == b',' then comma else other

-- the pieces between the commas outside all parentheses, from a depth on
unfoldable pub split_by_depth : ℕ → Text → List Text
split_by_depth d [] = [] ∷ []
split_by_depth d (c ∷ s) = elim (sign c) [
  | opening ↦ onto_first c (split_by_depth (suc d) s)
  | closing ↦ onto_first c (split_by_depth (d - 1) s)
  | comma ↦ elim (d == 0) [
    | true ↦ [] ∷ split_by_depth d s
    | false ↦ onto_first c (split_by_depth d s)
  ]
  | other ↦ onto_first c (split_by_depth d s)
]

-- Every parenthesis is closed, and none is opened inside another one.
unfoldable pub is_flat : Bool → Text → Bool
is_flat inside [] = not inside
is_flat inside (c ∷ s) = elim (sign c) [
  | opening ↦ elim inside [ true ↦ false | false ↦ is_flat true s ]
  | closing ↦ elim inside [ true ↦ is_flat false s | false ↦ false ]
  | comma ↦ is_flat inside s
  | other ↦ is_flat inside s
]

-- inside a tuple, and only there, a parenthesis closes before one opens
flat-closes : (inside : Bool) (s : Text) → is_flat inside s ≡ true → closes_first s ≡ inside
unfolding is_flat closes_first
flat-closes true [] h = ground arith
flat-closes false [] h = refl
flat-closes inside (c ∷ s) h = ground (arith, flat-closes true s, flat-closes false s)

split_types-depth :
    (inside : Bool) (s : Text)
    → is_flat inside s ≡ true
    → split_types s ≡ split_by_depth (if inside then 1 else 0) s
unfolding is_flat split_types split_by_depth
split_types-depth true [] h = refl
split_types-depth false [] h = refl
split_types-depth true (c ∷ s) h = ground (
  arith,
  flat-closes true s,
  flat-closes false s,
  split_types-depth true s,
  split_types-depth false s,
)
split_types-depth false (c ∷ s) h = ground (
  arith,
  flat-closes true s,
  flat-closes false s,
  split_types-depth true s,
  split_types-depth false s,
)

without_last-append : (s : Text) (c : ℕ) → without_last (s ++ (c ∷ [])) ≡ s
unfolding without_last
without_last-append [] c = refl
without_last-append (x ∷ []) c = refl
without_last-append (x ∷ y ∷ s) c = ap (λ t. x ∷ t) (without_last-append (y ∷ s) c)

-- no parenthesis opens in the text
unfoldable pub is_name : Text → Bool
is_name [] = true
is_name (c ∷ s) = not (c == b'(') && is_name s

split_signature-name :
    (name types : Text)
    → is_name name ≡ true
    → split_signature (name ++ (b'(' ∷ types)) ≡ (name, some types)
unfolding is_name split_signature
split_signature-name [] types h = refl
split_signature-name (c ∷ name) types h = ground (arith, split_signature-name name types)

-- the text of a signature
abbrev pub signature : Text → Text → Text
signature name types = name ++ (b'(' ∷ (types ++ (b')' ∷ [])))

-- A signature whose name has no opening parenthesis, with types of which each parenthesis is closed and
-- none is opened inside another one, is read as its name and its types, and these are split at the
-- commas outside all parentheses.
pub split_signature-signature :
    (name types : Text)
    → is_name name ≡ true
    → is_flat false types ≡ true
    → (split_signature (without_last (signature name types)) ≡ (name, some types))
      × (split_types types ≡ split_by_depth 0 types)
split_signature-signature name types h k = (
  ap split_signature (
        ap without_last (sym (append_assoc name (b'(' ∷ types) (b')' ∷ [])))
        ∙ without_last-append (name ++ (b'(' ∷ types)) b')')
      ∙ split_signature-name name types h,
  split_types-depth false types k,
)
