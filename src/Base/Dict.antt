-- ===== src/Base/Dict.antt =====
-- A Python dict as the entries in the order of insertion, over keys with a decidable equality.
use mathlib.Core.Logic.{ite, if_pos, if_neg}
use mathlib.Core.Path.{◌≡◌, refl}
use mathlib.Core.List.{List, [], ◌∷◌, map}
use mathlib.Core.Option.{Option, none, some}
use Prim.Native.Nat.{◌+◌}
use mathlib.Core.Bool.{Bool}
use native.Mathlib.Omega.{arith}
use python_ctools.Base.Tests.{if◌then◌else◌}
use python_ctools.Base.Results.{Result, ok, raise, key_error, raised}
use python_ctools.Base.Lists.{length}

abbrev pub Dict {ℓ} : Type ℓ → Type ℓ → Type ℓ
Dict K V = List (K × V)

abbrev pub keys {ℓ} : {K V : Type ℓ} → Dict K V → List K
keys = map (λ e. e.0)

module _ {ℓ} {K V : Type ℓ} (dec : Discrete K) where
  unfoldable pub get_item : K → Dict K V → Option V
  get_item k [] = none
  get_item k ((j, v) ∷ d) = ite (dec j k) (some v) (get_item k d)

  -- A key keeps its place and takes the new value; a new key comes last.
  unfoldable pub set_item : K → V → Dict K V → Dict K V
  set_item k v [] = (k, v) ∷ []
  set_item k v ((j, w) ∷ d) = ite (dec j k) ((j, v) ∷ d) ((j, w) ∷ set_item k v d)

  unfoldable pub del_item : K → Dict K V → Dict K V
  del_item k [] = []
  del_item k ((j, w) ∷ d) = ite (dec j k) d ((j, w) ∷ del_item k d)

  -- No two entries have one key.
  abbrev pub Distinct : Dict K V → Type ℓ
  Distinct [] = Unit
  Distinct ((j, v) ∷ d) = (get_item j d ≡ none) × Distinct d

  pub get_item-set_item :
      (k q : K) (v : V) (d : Dict K V)
      → get_item q (set_item k v d) ≡ ite (dec k q) (some v) (get_item q d)
  unfolding get_item set_item
  get_item-set_item k q v [] = ground arith
  get_item-set_item k q v ((j, w) ∷ d) = ground (arith, get_item-set_item k q v d)

  -- a deleted key is gone, if it was there but once
  pub get_item-del_item :
      (k q : K) (d : Dict K V)
      → Distinct d
      → get_item q (del_item k d) ≡ ite (dec k q) none (get_item q d)
  unfolding get_item del_item
  get_item-del_item k q [] h = ground arith
  get_item-del_item k q ((j, w) ∷ d) h = ground (arith, h.0, get_item-del_item k q d h.1)

  pub set_item-Distinct : (k : K) (v : V) (d : Dict K V) → Distinct d → Distinct (set_item k v d)
  unfolding get_item set_item
  set_item-Distinct k v [] h = ground arith
  set_item-Distinct k v ((j, w) ∷ d) h = elim (dec j k) [
    | yes e ↦ rw (if_pos (dec j k) e) h
    | no ne ↦
        rw (if_neg (dec j k) ne)
          (ground (arith, h.0, get_item-set_item k j v d), set_item-Distinct k v d h.1)
  ]

  pub del_item-Distinct : (k : K) (d : Dict K V) → Distinct d → Distinct (del_item k d)
  unfolding get_item del_item
  del_item-Distinct k [] h = h
  del_item-Distinct k ((j, w) ∷ d) h = elim (dec j k) [
    | yes e ↦ rw (if_pos (dec j k) e) h.1
    | no ne ↦
        rw (if_neg (dec j k) ne)
          (ground (arith, h.0, get_item-del_item k j d h.1), del_item-Distinct k d h.1)
  ]

  pub length-del_item :
      (k : K) (v : V) (d : Dict K V) → get_item k d ≡ some v → length (del_item k d) + 1 ≡ length d
  unfolding get_item del_item
  length-del_item k v [] h = cc
  length-del_item k v ((j, w) ∷ d) h = ground (arith, length-del_item k v d)

  pub length-set_item_new :
      (k : K) (v : V) (d : Dict K V) → get_item k d ≡ none → length (set_item k v d) ≡ length d + 1
  unfolding get_item set_item
  length-set_item_new k v [] h = refl
  length-set_item_new k v ((j, w) ∷ d) h = ground (arith, length-set_item_new k v d)

  pub length-set_item_old :
      (k : K) (v w : V) (d : Dict K V) → get_item k d ≡ some w → length (set_item k v d) ≡ length d
  unfolding get_item set_item
  length-set_item_old k v w [] h = cc
  length-set_item_old k v w ((j, u) ∷ d) h = ground (arith, length-set_item_old k v w d)

-- The calls of the C interface that may find a key unhashable.
module _ {ℓ} {K V : Type ℓ} (dec : Discrete K) (hashable : K → Bool) where
  -- `PyDict_GetItemWithError`
  unfoldable pub lookup : K → Dict K V → Result (Option V)
  lookup k d = if hashable k then ok (get_item dec k d) else raise raised

  -- `PyDict_SetItem`
  unfoldable pub store : K → V → Dict K V → Result (Dict K V)
  store k v d = if hashable k then ok (set_item dec k v d) else raise raised

  -- `PyDict_DelItem`
  unfoldable pub delete : K → Dict K V → Result (Dict K V)
  delete k d =
      if hashable k
      then (elim (get_item dec k d) [ none ↦ raise key_error | some _ ↦ ok (del_item dec k d) ])
      else raise raised
