-- ===== src/Sdk/Image/Runs.antt =====
-- The runs that `encode` of packages/nouns-sdk/src/image/image.ts writes.
use unouns_monorepo.Base.{
  ℕ, zero, suc, ◌≤◌, ◌<◌, ◌≡◌, refl, sym, ap, arith, true, false, List, [], ◌∷◌, ◌++◌, append_assoc,
  append-nil, inl, inr, Bool-cases, ◌==◌, ◌||◌, not, replicate, All,
}
use unouns_monorepo.Base.Text.{Text}
use unouns_monorepo.Sdk.Image.{Encoding, run_text, encode_from, encode}

-- The runs of `rest` after `count` elements `previous`.
abbrev pub runs : ℕ → ℕ → List ℕ → List (ℕ × ℕ)
runs previous count [] = (count, previous) ∷ []
runs previous count (d ∷ rest) = elim (not (d == previous) || count == 255) [
  | true ↦ (count, previous) ∷ runs d 1 rest
  | false ↦ runs previous (suc count) rest
]

abbrev pub all_runs : List ℕ → List (ℕ × ℕ)
all_runs [] = []
all_runs (d ∷ rest) = runs d 1 rest

abbrev pub expand : List (ℕ × ℕ) → List ℕ
expand [] = []
expand ((count, value) ∷ rest) = replicate count value ++ expand rest

abbrev pub runs_text : List (ℕ × ℕ) → Text
runs_text [] = []
runs_text ((count, value) ∷ rest) = run_text count value ++ runs_text rest

-- a run that fits the two bytes
abbrev pub FitsBytes : ℕ × ℕ → Type 0
FitsBytes (count, value) = (1 ≤ count) × (count < 256) × (value < 256)

encode_from-runs :
    (e : Encoding) (previous count : ℕ) (rest : List ℕ)
    → (encode_from e previous count rest).encoding
      ≡ e.encoding ++ runs_text (runs previous count rest)
unfolding encode_from
encode_from-runs e previous count [] =
    ap (λ t. e.encoding ++ t) (sym (append-nil (run_text count previous)))
encode_from-runs e previous count (d ∷ rest) =
    elim (Bool-cases (not (d == previous) || count == 255)) [
      | inl stop ↦ ground (
        arith,
        stop,
        encode_from-runs
            (record {
              encoding = e.encoding ++ run_text count previous;
              tuples = e.tuples ++ (count, previous) ∷ [];
            })
            d 1 rest,
        append_assoc e.encoding (run_text count previous) (runs_text (runs d 1 rest)),
      )
      | inr go ↦ ground (arith, go, encode_from-runs e previous (suc count) rest)
    ]

-- the text of `encode` is the text of the runs
pub encode-runs :
    (tuples : List (ℕ × ℕ)) (indexes : List ℕ)
    → (encode tuples indexes).encoding ≡ runs_text (all_runs indexes)
unfolding encode
encode-runs tuples [] = refl
encode-runs tuples (d ∷ rest) = encode_from-runs _ d 1 rest

replicate_snoc : (n x : ℕ) (l : List ℕ) → replicate n x ++ x ∷ l ≡ x ∷ (replicate n x ++ l)
replicate_snoc zero x l = refl
replicate_snoc (suc n) x l = ap (λ t. x ∷ t) (replicate_snoc n x l)

expand-runs :
    (previous count : ℕ) (rest : List ℕ)
    → expand (runs previous count rest) ≡ replicate count previous ++ rest
expand-runs previous count [] = refl
expand-runs previous count (d ∷ rest) = ground (
  arith,
  expand-runs d 1 rest,
  expand-runs d (suc count) rest,
  expand-runs previous (suc count) rest,
  replicate_snoc count d rest,
)

-- The runs stand for the data that was encoded.
pub expand-all_runs : (indexes : List ℕ) → expand (all_runs indexes) ≡ indexes
expand-all_runs [] = refl
expand-all_runs (d ∷ rest) = expand-runs d 1 rest

runs-FitsBytes :
    (previous count : ℕ) (rest : List ℕ)
    → FitsBytes (count, previous)
    → All (λ n. n < 256) rest
    → All FitsBytes (runs previous count rest)
runs-FitsBytes previous count [] h k = (h, tt)
runs-FitsBytes previous count (d ∷ rest) h k =
    ground (arith, runs-FitsBytes d 1 rest, runs-FitsBytes previous (suc count) rest)

-- every run of indexes that are bytes fits two bytes
pub all_runs-FitsBytes :
    (indexes : List ℕ) → All (λ n. n < 256) indexes → All FitsBytes (all_runs indexes)
all_runs-FitsBytes [] h = tt
all_runs-FitsBytes (d ∷ rest) h = runs-FitsBytes d 1 rest (omega arith, omega arith, h.0) h.1
