-- ===== src/Prelude/Dict.antt =====
-- A Python dict with text keys, in insertion order.
use text.Mathlib.Text.{◌==◌ as str_eq}
use text.Mathlib.TextEquality.{eq_iff}
use Prim.Native.String.{String}
use mathlib.Core.Path.{◌≡◌, ◌∙◌, refl}
use mathlib.Core.Bool.{true, false}
use mathlib.Core.Option.{Option, none, some}
use mathlib.Core.List.{List, [], ◌∷◌}
use native.Mathlib.Omega.{arith}
use zdrovena_reconciliation.Prelude.Tests.{if◌then◌else◌}

abbrev pub Dict {ℓ} : Type ℓ → Type ℓ
Dict V = List (String × V)

module _ {ℓ} {V : Type ℓ} where
  -- `d.get(k)`
  abbrev pub lookup : String → Dict V → Option V
  lookup k [] = none
  lookup k ((j, v) ∷ d) = if str_eq k j then some v else lookup k d

  -- `d[k] = v`
  abbrev pub insert : String → V → Dict V → Dict V
  insert k v [] = (k, v) ∷ []
  insert k v ((j, w) ∷ d) = if str_eq k j then (j, v) ∷ d else (j, w) ∷ insert k v d

  -- `del d[k]`; a Python dict has a key at most once, so all of its entries are dropped
  abbrev pub without : String → Dict V → Dict V
  without k [] = []
  without k ((j, w) ∷ d) = let rest = without k d in if str_eq k j then rest else (j, w) ∷ rest

  -- `d.update(fields)`
  abbrev pub update : Dict V → Dict V → Dict V
  update d [] = d
  update d ((k, v) ∷ fields) = update (insert k v d) fields

  pub lookup-insert :
      (k j : String) (v : V) (d : Dict V)
      → lookup j (insert k v d) ≡ (if str_eq j k then some v else lookup j d)
  lookup-insert k j v [] = refl
  lookup-insert k j v ((i, w) ∷ d) =
      ground (arith, eq_iff j k, eq_iff k i, eq_iff j i, lookup-insert k j v d)

  pub lookup-without :
      (k j : String) (d : Dict V)
      → lookup j (without k d) ≡ (if str_eq j k then none else lookup j d)
  lookup-without k j [] = ground arith
  lookup-without k j ((i, w) ∷ d) =
      ground (arith, eq_iff j k, eq_iff k i, eq_iff j i, lookup-without k j d)

pub str_eq_self : (k : String) → str_eq k k ≡ true
str_eq_self k = (eq_iff k k).1 refl

pub str_eq-sym : (j k : String) → str_eq j k ≡ str_eq k j
str_eq-sym j k = ground (arith, eq_iff j k, eq_iff k j)

pub lookup-insert_self {ℓ} :
    {V : Type ℓ} (k : String) (v : V) (d : Dict V) → lookup k (insert k v d) ≡ some v
lookup-insert_self k v d = lookup-insert k k v d ∙ (rw (str_eq_self k))

pub lookup-insert_ne {ℓ} :
    {V : Type ℓ} (k j : String) (v : V) (d : Dict V)
    → str_eq j k ≡ false
    → lookup j (insert k v d) ≡ lookup j d
lookup-insert_ne k j v d h = lookup-insert k j v d ∙ (rw h)
