-- ===== src/Webapp/ExploreGrid/Ids.antt =====
-- The ids of the Nouns of the grid: those below a number, and how lists of Nouns keep them.
use mathlib.Core.List.{reverse, reverse-append, reverse-cons, map-append}
use unouns_monorepo.Base.{
  ℕ, zero, suc, ◌+◌, ◌-◌, ◌≤◌, ◌≡◌, Option, some, List, [], ◌∷◌, ◌++◌, map, length, refl, sym, ap,
  ◌∙◌, arith,
}
use unouns_monorepo.Base.Int.{ℤ, pos, ◌+ℤ◌, ◌-ℤ◌}
use unouns_monorepo.Webapp.ExploreGrid.{Noun, NounPics, indices, individual_noun, initial_nouns}

-- the ids of so many Nouns below a number, from the largest one on
abbrev pub ids_below : ℕ → ℕ → List (Option ℤ)
ids_below n zero = []
ids_below n (suc k) = some (pos (n - 1)) ∷ ids_below (n - 1) k

abbrev pub ids : List Noun → List (Option ℤ)
ids nouns = map (λ noun. noun.id) nouns

pub ids_below-append : (n j k : ℕ) → ids_below n (j + k) ≡ ids_below n j ++ ids_below (n - j) k
ids_below-append n zero k =
    let m : n - 0 ≡ n = omega arith in let l : 0 + k ≡ k = omega arith in rw (m, l) refl
ids_below-append n (suc j) k =
    let l : suc j + k ≡ suc (j + k) = omega arith in
    let m : n - suc j ≡ n - 1 - j = omega arith in
    ap (ids_below n) l
    ∙ ap (λ is. some (pos (n - 1)) ∷ is)
        (ids_below-append (n - 1) j k ∙ ap (λ m. ids_below (n - 1) j ++ ids_below m k) (sym m))

pub ids-append : (xs ys : List Noun) → ids (xs ++ ys) ≡ ids xs ++ ids ys
ids-append xs ys = map-append (λ (noun : Noun). noun.id) xs ys

-- the last of the ids, from the smallest one on
pub indices-ids :
    (n k : ℕ) (f : ℕ → Noun)
    → k ≤ n
    → ((i : ℕ) → (f i).id ≡ some (pos (i + (n - k))))
    → ids (reverse (map f (indices k))) ≡ ids_below n k
indices-ids n zero f h each = refl
indices-ids n (suc k) f h each =
    let last : k + (n - suc k) ≡ n - 1 = omega arith in
    let same : n - suc k ≡ n - 1 - k = omega arith in
    ap ids (
      ap reverse (map-append f (indices k) (k ∷ []))
      ∙ reverse-append (map f (indices k)) (f k ∷ []))
    ∙ ap (λ x. x ∷ ids (reverse (map f (indices k)))) (each k ∙ ap (λ m. some (pos m)) last)
    ∙ ap (λ is. some (pos (n - 1)) ∷ is)
        (indices-ids (n - 1) k f (omega arith) (λ i. each i ∙ ap (λ m. some (pos (i + m))) same))

-- The first Nouns have the largest ids.
pub initial_nouns-ids :
    (pics : NounPics) (n k : ℕ) → k ≤ n → ids (initial_nouns pics n k) ≡ ids_below n k
unfolding initial_nouns individual_noun ◌+ℤ◌ ◌-ℤ◌
initial_nouns-ids pics n k h = indices-ids n k (individual_noun pics n k) h (λ i. ground arith)

pub length-ids : (xs : List Noun) → length (ids xs) ≡ length xs
length-ids [] = refl
length-ids (x ∷ xs) = ap suc (length-ids xs)

pub length-ids_below : (n k : ℕ) → length (ids_below n k) ≡ k
length-ids_below n zero = refl
length-ids_below n (suc k) = ap suc (length-ids_below (n - 1) k)

pub ids-reverse : (xs : List Noun) → ids (reverse xs) ≡ reverse (ids xs)
ids-reverse [] = refl
ids-reverse (x ∷ xs) =
    ap ids (reverse-cons x xs)
    ∙ ids-append (reverse xs) (x ∷ [])
    ∙ ap (λ is. is ++ (x.id ∷ [])) (ids-reverse xs)
    ∙ sym (reverse-cons x.id (ids xs))
