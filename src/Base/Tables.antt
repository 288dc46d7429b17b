-- ===== src/Base/Tables.antt =====
-- A database table as an association list: its primary key, and the rest of the row.
use mathlib.Core.Path.{◌≡◌, refl}
use mathlib.Core.Bool.{Bool, not}
use mathlib.Core.Option.{Option, none, some}
use mathlib.Core.List.{List, [], ◌∷◌, ◌++◌}
use native.Mathlib.Omega.{arith}
use quire_server.Base.Tests.{if◌then◌else◌, Eq, ◌==◌, eq_iff}
use quire_server.Base.Lists.{keep}

abbrev pub Table {ℓ κ} : Type ℓ → Type κ → Type (ℓ ⊔ κ)
Table K V = List (K × V)

module _ {ℓ κ} {K : Type ℓ} {V : Type κ} ⦃e : Eq K⦄ where
  -- SELECT … WHERE key = ?
  unfoldable pub find : K → Table K V → Option V
  find k [] = none
  find k ((j, v) ∷ t) = if j == k then some v else find k t

  -- INSERT … ON CONFLICT DO UPDATE
  unfoldable pub upsert : K → V → Table K V → Table K V
  upsert k v [] = (k, v) ∷ []
  upsert k v ((j, w) ∷ t) = if j == k then (k, v) ∷ t else (j, w) ∷ upsert k v t

  -- INSERT; none is a violation of the primary key
  unfoldable pub insert : K → V → Table K V → Option (Table K V)
  unfolding find
  insert k v t = elim (find k t) [ none ↦ some (t ++ (k, v) ∷ []) | some _ ↦ none ]

  -- DELETE … WHERE test
  unfoldable pub remove : (K × V → Bool) → Table K V → Table K V
  remove test t = keep (λ row. not (test row)) t

  pub find-upsert :
      (k j : K) (v : V) (t : Table K V)
      → find j (upsert k v t) ≡ (if k == j then some v else find j t)
  unfolding find upsert
  find-upsert k j v [] = refl
  find-upsert k j v ((i, w) ∷ t) =
      ground (arith, eq_iff k j, eq_iff i k, eq_iff i j, find-upsert k j v t)

  pub find-append :
      (j k : K) (v : V) (t : Table K V)
      → find k t ≡ none
      → find j (t ++ (k, v) ∷ []) ≡ (if k == j then some v else find j t)
  unfolding find
  find-append j k v [] h = refl
  find-append j k v ((i, w) ∷ t) h =
      ground (arith, eq_iff i k, eq_iff k j, eq_iff i j, find-append j k v t)

  pub insert_fresh :
      (k : K) (v : V) (t : Table K V) → find k t ≡ none → insert k v t ≡ some (t ++ (k, v) ∷ [])
  unfolding insert
  insert_fresh k v t h = rw (h, insert)

  -- A row that is found stays found when a row is added at the end.
  pub find-some-append :
      (j : K) (w : V) (t u : Table K V) → find j t ≡ some w → find j (t ++ u) ≡ some w
  unfolding find
  find-some-append j w [] u h = cc
  find-some-append j w ((i, x) ∷ t) u h = ground (arith, find-some-append j w t u)

  pub upsert-upsert : (k : K) (v : V) (t : Table K V) → upsert k v (upsert k v t) ≡ upsert k v t
  unfolding upsert
  upsert-upsert k v [] = ground (arith, eq_iff k k)
  upsert-upsert k v ((i, x) ∷ t) = ground (arith, eq_iff k k, eq_iff i k, upsert-upsert k v t)
