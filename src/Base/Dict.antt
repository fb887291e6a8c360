-- ===== src/Base/Dict.antt =====
-- Go maps as association lists. Proofs elsewhere go by the laws; only tests unfold the operations.
-- Iteration (`range`) goes along the list; a nil map is the empty one, which reads alike.
use kryptic_k8s_operator.Base.Equality.{Eq, ◌==◌, if◌then◌else◌}
use mathlib.Core.Path.{◌≡◌, refl}
use mathlib.Core.Option.{Option, none, some}
use mathlib.Core.List.{List, [], ◌∷◌}
use native.Mathlib.Omega.{arith}

abbrev pub Dict {ℓ κ} : Type ℓ → Type κ → Type (ℓ ⊔ κ)
Dict K V = List (K × V)

-- The first value, if there is one.
abbrev pub or_value {ℓ} : {V : Type ℓ} → Option V → Option V → Option V
or_value (some v) o = some v
or_value none o = o

module _ {ℓ κ} {K : Type ℓ} {V : Type κ} ⦃e : Eq K⦄ where
  unfoldable pub lookup : K → Dict K V → Option V
  lookup k [] = none
  lookup k ((j, v) ∷ d) = if j == k then some v else lookup k d

  -- `d[k] = v`
  unfoldable pub insert : K → V → Dict K V → Dict K V
  insert k v [] = (k, v) ∷ []
  insert k v ((j, w) ∷ d) = if j == k then (k, v) ∷ d else (j, w) ∷ insert k v d

  -- `delete(d, k)`. Every entry of the key goes; a Go map has at most one.
  unfoldable pub erase : K → Dict K V → Dict K V
  erase k [] = []
  erase k ((j, w) ∷ d) = let rest = erase k d in if j == k then rest else (j, w) ∷ rest

  abbrev pub NodupKeys : Dict K V → Type κ
  NodupKeys [] = Unit
  NodupKeys ((k, _) ∷ d) = (lookup k d ≡ none) × NodupKeys d

  pub lookup-nil : (k : K) → lookup k [] ≡ none
  unfolding lookup
  lookup-nil k = refl

  pub lookup-cons :
      (k j : K) (v : V) (d : Dict K V)
      → lookup k ((j, v) ∷ d) ≡ (if j == k then some v else lookup k d)
  unfolding lookup
  lookup-cons k j v d = refl

  pub lookup-insert :
      (k j : K) (v : V) (d : Dict K V)
      → lookup k (insert j v d) ≡ (if j == k then some v else lookup k d)
  unfolding insert lookup
  lookup-insert k j v [] = refl
  lookup-insert k j v (_ ∷ d) = ground (arith, lookup-insert k j v d)

  pub lookup-erase :
      (k j : K) (d : Dict K V) → lookup k (erase j d) ≡ (if j == k then none else lookup k d)
  unfolding erase lookup
  lookup-erase k j [] = ground arith
  lookup-erase k j (_ ∷ d) = ground (arith, lookup-erase k j d)

  pub insert-NodupKeys : (k : K) (v : V) (d : Dict K V) → NodupKeys d → NodupKeys (insert k v d)
  unfolding insert
  insert-NodupKeys k v [] _ = (lookup-nil k, tt)
  insert-NodupKeys k v ((j, w) ∷ d) (fresh, u) =
      ground (arith, insert-NodupKeys k v d u, lookup-insert j k v d)

  -- `for key, value := range source { target[key] = value }`
  unfoldable pub put_all : Dict K V → Dict K V → Dict K V
  put_all target [] = target
  put_all target ((k, v) ∷ source) = put_all (insert k v target) source

  -- A source with one entry for each key wins over the target.
  pub lookup-put_all :
      (k : K) (target source : Dict K V)
      → NodupKeys source
      → lookup k (put_all target source) ≡ or_value (lookup k source) (lookup k target)
  unfolding put_all lookup
  lookup-put_all k target [] _ = refl
  lookup-put_all k target ((j, v) ∷ source) (fresh, u) =
      ground (arith, lookup-put_all k (insert j v target) source u, lookup-insert k j v target)

  pub put_all-NodupKeys :
      (target source : Dict K V) → NodupKeys target → NodupKeys (put_all target source)
  unfolding put_all
  put_all-NodupKeys target [] u = u
  put_all-NodupKeys target ((k, v) ∷ source) u =
      put_all-NodupKeys (insert k v target) source (insert-NodupKeys k v target u)

  pub erase-NodupKeys : (k : K) (d : Dict K V) → NodupKeys d → NodupKeys (erase k d)
  unfolding erase
  erase-NodupKeys k [] _ = tt
  erase-NodupKeys k ((j, w) ∷ d) (fresh, u) =
      ground (arith, erase-NodupKeys k d u, lookup-erase j k d)
