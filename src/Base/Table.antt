-- ===== src/Base/Table.antt =====
-- The table of one entity type in the store: rows by id, each id at most once. `load` reads a row,
-- `save` overwrites the row of its id or adds one. A map by number is a function.
use Prim.Native.Nat.{ℕ, ◌+◌}
use Prim.Native.String.{String}
use mathlib.Core.Path.{◌≡◌, refl}
use mathlib.Core.List.{List, [], ◌∷◌}
use mathlib.Core.Option.{Option, none, some}
use native.Mathlib.Omega.{arith}
use text.Mathlib.TextEquality.{eq_iff}
use text.Mathlib.TextPositions.{eq_refl}
use unouns_monorepo.Base.Tests.{◌==◌, str_eq, if◌then◌else◌}
use unouns_monorepo.Base.Lists.{length}

abbrev pub Table {ℓ} : Type ℓ → Type ℓ
Table V = List (String × V)

module _ {ℓ} {V : Type ℓ} where
  unfoldable pub load : Table V → String → Option V
  load [] k = none
  load ((j, v) ∷ t) k = if str_eq j k then some v else load t k

  unfoldable pub save : Table V → String → V → Table V
  save [] k v = (k, v) ∷ []
  save ((j, w) ∷ t) k v = if str_eq j k then (k, v) ∷ t else (j, w) ∷ save t k v

  pub load-save :
      (t : Table V) (k j : String) (v : V)
      → load (save t k v) j ≡ (if str_eq k j then some v else load t j)
  unfolding load save
  load-save [] k j v = refl
  load-save ((i, w) ∷ t) k j v =
      ground (arith, eq_iff k j, eq_iff i k, eq_iff i j, load-save t k j v)

  pub load-save_self : (t : Table V) (k : String) (v : V) → load (save t k v) k ≡ some v
  load-save_self t k v = simp (load-save, eq_refl)

  abbrev pub is_new : Option V → ℕ
  is_new none = 1
  is_new (some v) = 0

  -- A save adds a row exactly when the id had none.
  pub length-save :
      (t : Table V) (k : String) (v : V) → length (save t k v) ≡ length t + is_new (load t k)
  unfolding load save
  length-save [] k v = refl
  length-save ((j, w) ∷ t) k v = ground (arith, length-save t k v)

  -- Every row stands under its own id.
  abbrev pub KeyedBy : (V → String) → Table V → Type ℓ
  KeyedBy id t = (k : String) (v : V) → load t k ≡ some v → id v ≡ k

  pub KeyedBy-save :
      (id : V → String) (t : Table V) (v : V) → KeyedBy id t → KeyedBy id (save t (id v) v)
  KeyedBy-save id t v keyed k w row =
      ground (arith, load-save t (id v) k v, eq_iff (id v) k, keyed k w)

-- a function with one value replaced
unfoldable pub set_at {ℓ} : {A : Type ℓ} → ℕ → A → (ℕ → A) → ℕ → A
set_at k a f n = if k == n then a else f n

pub ruleset table_laws = (load-save, eq_refl)
