-- ===== src/Base/Text.antt =====
-- Texts as lists of code units, for the code that walks them: `split`, `join`, `replaceAll`, `trim`
-- of ECMAScript strings, at the separators that the program uses.
use unouns_monorepo.Base.{
  ℕ, Bool, true, false, List, [], ◌∷◌, ◌++◌, ◌==◌, ◌||◌, ◌&&◌, take, leb, if◌then◌else◌, ◌≡◌, refl,
  arith,
}

abbrev pub Text : Type 0
Text = List ℕ

-- put a code unit in front of the first piece
unfoldable pub onto_first : ℕ → List Text → List Text
onto_first x [] = (x ∷ []) ∷ []
onto_first x (p ∷ ps) = (x ∷ p) ∷ ps

-- `s.split(c)` for a separator of one code unit
unfoldable pub split : ℕ → Text → List Text
unfolding onto_first
split c [] = [] ∷ []
split c (x ∷ s) = let rest = split c s in if x == c then [] ∷ rest else onto_first x rest

-- `s.split(c, limit)`
abbrev pub split_limit : ℕ → ℕ → Text → List Text
split_limit c limit s = take limit (split c s)

-- `pieces.join('')`
unfoldable pub join : List Text → Text
join [] = []
join (p ∷ ps) = p ++ join ps

-- `s.split(ab).join(r)` and `s.replaceAll(ab, r)` for a separator `ab` of two code units
unfoldable pub replace_pair : ℕ → ℕ → Text → Text → Text
replace_pair a b r [] = []
replace_pair a b r (x ∷ []) = x ∷ []
replace_pair a b r (x ∷ y ∷ s) = elim (x == a && y == b) [
  | true ↦ r ++ replace_pair a b r s
  | false ↦ x ∷ replace_pair a b r (y ∷ s)
]

-- white space and line terminators
unfoldable pub is_space : ℕ → Bool
is_space c =
    c == 9
    || (c == 10
        || (c == 11
            || (c == 12
                || (c == 13
                    || (c == 32
                        || (c == 160
                            || (c == 0x1680
                                || (c == 0x2028
                                    || (c == 0x2029
                                        || (c == 0x202f
                                            || (c == 0x205f
                                                || (c == 0x3000
                                                    || (c == 0xfeff
                                                        || (leb 0x2000 c
                                                            && leb c 0x200a))))))))))))))

unfoldable pub trim_start : Text → Text
unfolding is_space
trim_start [] = []
trim_start (x ∷ s) = let rest = trim_start s in if is_space x then rest else x ∷ s

unfoldable pub trim_end : Text → Text
unfolding is_space
trim_end [] = []
trim_end (x ∷ s) = close x (trim_end s)
  where
    close : ℕ → Text → Text
    close x [] = if is_space x then [] else x ∷ []
    close x (y ∷ t) = x ∷ y ∷ t

abbrev pub trim : Text → Text
trim s = trim_end (trim_start s)

-- `s === t`
unfoldable pub same_text : Text → Text → Bool
same_text [] [] = true
same_text (x ∷ s) (y ∷ t) = let rest = same_text s t in if x == y then rest else false
same_text [] (y ∷ t) = false
same_text (x ∷ s) [] = false

pub same_text_refl : (s : Text) → same_text s s ≡ true
unfolding same_text
same_text_refl [] = refl
same_text_refl (x ∷ s) = ground (arith, same_text_refl s)

pub same_text→≡ : (s t : Text) → same_text s t ≡ true → s ≡ t
unfolding same_text
same_text→≡ [] [] h = refl
same_text→≡ (x ∷ s) (y ∷ t) h = ground (arith, same_text→≡ s t)
same_text→≡ [] (y ∷ t) h = ground arith
same_text→≡ (x ∷ s) [] h = ground arith
