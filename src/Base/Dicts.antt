-- ===== src/Base/Dicts.antt =====
-- Dictionaries in insertion order, over a type of keys whose equality can be decided.
use Prim.Native.Nat.{suc, ◌≤◌}
use Prim.Native.String.{String}
use mathlib.Core.Path.{◌≡◌, refl}
use mathlib.Core.Logic.{ite, dite}
use mathlib.Core.Bool.{Bool, true, false, Bool-discrete}
use mathlib.Core.Option.{Option, none, some}
use mathlib.Core.List.{List, [], ◌∷◌, ◌++◌}
use native.Mathlib.Omega.{arith}
use text.Mathlib.Text.{◌==◌ as text_eq}
use text.Mathlib.TextEquality.{eq_iff}
use taskweave.Base.Tests.{if◌then◌else◌}
use taskweave.Base.Lists.{length}

pub record Key {ℓ} (K : Type ℓ) : Type ℓ where
  pub dec : Discrete K

-- Shut in proofs, where a split on `same a b` yields the equation or its negation.
instance unfoldable pub string_key : Key String
string_key = record {
  dec = λ s t.
      dite (Bool-discrete (text_eq s t) true) (λ p. yes ((eq_iff s t).0 p))
        (λ n. no (λ p. n ((eq_iff s t).1 p)));
}

abbrev pub Dict {ℓ κ} : Type ℓ → Type κ → Type (ℓ ⊔ κ)
Dict K V = List (K × V)

module _ {ℓ} {K : Type ℓ} ⦃key : Key K⦄ where
  abbrev pub same : K → K → Bool
  same a b = ite (key.dec a b) true false

module _ {ℓ κ} {K : Type ℓ} {V : Type κ} ⦃key : Key K⦄ where
  -- `d.get(k)`
  abbrev pub find : Dict K V → K → Option V
  find [] k = none
  find ((j, v) ∷ d) k = if same j k then some v else find d k

  -- `d[k] = v`
  abbrev pub store : Dict K V → K → V → Dict K V
  store [] k v = (k, v) ∷ []
  store ((j, w) ∷ d) k v = let rest = store d k v in if same j k then (j, v) ∷ d else (j, w) ∷ rest

  -- `del d[k]`
  abbrev pub erase : Dict K V → K → Dict K V
  erase [] k = []
  erase ((j, w) ∷ d) k = let rest = erase d k in if same j k then d else (j, w) ∷ rest

  pub find-store :
      (d : Dict K V) (k j : K) (v : V)
      → find (store d k v) j ≡ (if same k j then some v else find d j)
  find-store [] k j v = ground arith
  find-store ((i, w) ∷ d) k j v = ground (arith, find-store d k j v)

  pub length-store-le : (d : Dict K V) (k : K) (v : V) → length (store d k v) ≤ suc (length d)
  length-store-le [] k v = omega arith
  length-store-le ((j, w) ∷ d) k v = ground (arith, length-store-le d k v)

  -- A new key is appended.
  pub length-store-new :
      (d : Dict K V) (k : K) (v : V) → find d k ≡ none → length (store d k v) ≡ suc (length d)
  length-store-new [] k v new = refl
  length-store-new ((j, w) ∷ d) k v new = ground (arith, length-store-new d k v)

  pub store-new : (d : Dict K V) (k : K) (v : V) → find d k ≡ none → store d k v ≡ d ++ (k, v) ∷ []
  store-new [] k v new = refl
  store-new ((j, w) ∷ d) k v new = ground (arith, new, store-new d k v)

  pub length-erase-le : (d : Dict K V) (k : K) → length (erase d k) ≤ length d
  length-erase-le [] k = omega arith
  length-erase-le ((j, w) ∷ d) k = ground (arith, length-erase-le d k)
