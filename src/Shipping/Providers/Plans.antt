-- ===== src/Shipping/Providers/Plans.antt =====
-- What a plan of calls promises, whichever courier it is for.
use zdrovena_reconciliation.Prelude.{
  ℕ, suc, ◌+◌, ◌≡◌, refl, sym, subst, ap, ◌∙◌, Option, none, some, List, [], ◌∷◌, map, length,
  replicate, get_elem?, arith, String,
}
use zdrovena_reconciliation.Prelude.Result.{Result, ok, err}
use zdrovena_reconciliation.Prelude.Result.{◌>>=◌ as bind}
use zdrovena_reconciliation.Shipping.Parcels.{PhysicalParcel}
use zdrovena_reconciliation.Shipping.Planning.{ProductNames, physical_parcels}
use zdrovena_reconciliation.Shipping.Cod.Money.{Decimal, CodError}
use zdrovena_reconciliation.Shipping.Cod.Allocation.{CodDraft, CodAllocation, cod_allocation}
use zdrovena_reconciliation.Shipping.Cod.Allocation.Weights.{Ensures, IsRefusal}
use zdrovena_reconciliation.Shipping.Cod.Allocation.Sound.{Allocates, cod_allocation-Ensures}
use zdrovena_reconciliation.Shipping.Providers.Calls.{
  Call, key_of, parcel_key, ProviderError, of_split, missing_amount, amount_at, specs_from,
  split_amounts,
}

-- The errors that the planning may end in: no `IndexError`, and of the split no failure of its own
-- bookkeeping; its uncaught `decimal.InvalidOperation` on more than 28 digits is among them.
abbrev pub IsMeant : ProviderError → Type 0
IsMeant (missing_amount position) = ⊥
IsMeant (of_split e) = IsRefusal e
IsMeant _ = Unit

-- a property of the value, where there is one
abbrev pub Plans : {A : Type 0} → (A → Type 0) → Result ProviderError A → Type 0
Plans P (ok a) = P a
Plans P (err e) = IsMeant e

pub Plans-bind :
    {A B : Type 0} (P : A → Type 0) (Q : B → Type 0) (m : Result ProviderError A)
    (f : A → Result ProviderError B)
    → Plans P m
    → ((a : A) → P a → Plans Q (f a))
    → Plans Q (bind m f)
Plans-bind P Q (ok a) f h k = k a h
Plans-bind P Q (err e) f h k = h

pub Plans-mono :
    {A : Type 0} {P Q : A → Type 0}
    → ((a : A) → P a → Q a)
    → (m : Result ProviderError A) → Plans P m
    → Plans Q m
Plans-mono f (ok a) h = f a h
Plans-mono f (err e) h = h

-- a value with the property, and no error at all
abbrev pub Succeeds : {A : Type 0} → (A → Type 0) → Result ProviderError A → Type 0
Succeeds P (ok a) = P a
Succeeds P (err e) = ⊥

Succeeds-bind :
    {A B : Type 0} (P : A → Type 0) (Q : B → Type 0) (m : Result ProviderError A)
    (f : A → Result ProviderError B)
    → Succeeds P m
    → ((a : A) → P a → Succeeds Q (f a))
    → Succeeds Q (bind m f)
Succeeds-bind P Q (ok a) f h k = k a h
Succeeds-bind P Q (err e) f h k = absurd h

pub Succeeds-Plans :
    {A : Type 0} (P : A → Type 0) (m : Result ProviderError A) → Succeeds P m → Plans P m
Succeeds-Plans P (ok a) h = h
Succeeds-Plans P (err e) h = absurd h

Succeeds-mono :
    {A : Type 0} {P Q : A → Type 0}
    → ((a : A) → P a → Q a)
    → (m : Result ProviderError A) → Succeeds P m
    → Succeeds Q m
Succeeds-mono f (ok a) h = f a h
Succeeds-mono f (err e) h = absurd h

amount_at-Succeeds :
    (all : List ℕ) (position a : ℕ)
    → get_elem? all position ≡ some a
    → Succeeds (λ x. x ≡ some a) (amount_at (some all) position)
unfolding amount_at
amount_at-Succeeds all position a h = ground arith

-- what the parcels collect, one entry for each, where it is known
abbrev entries : Option (List ℕ) → ℕ → List (Option ℕ)
entries none n = replicate n none
entries (some amounts) n = map some amounts

-- the amounts from a position on
abbrev From : Option (List ℕ) → ℕ → Option (List ℕ) → ℕ → Type 0
From none position none n = Unit
From (some all) position (some rest) n =
    (length rest ≡ n) × ((i : ℕ) → get_elem? all (position + i) ≡ get_elem? rest i)
From _ position _ n = ⊥

module _ {A : Type 0} (build : PhysicalParcel → Option ℕ → Call A)
    (key_of_build : (p : PhysicalParcel) (a : Option ℕ) → key_of (build p a) ≡ parcel_key p)
    (collects_build : (p : PhysicalParcel) (a : Option ℕ) → (build p a).collects ≡ a) where
  -- one call for each parcel, with its amount
  abbrev pub IsPlanOf : Option (List ℕ) → List PhysicalParcel → List (Call A) → Type 0
  IsPlanOf amounts parcels specs =
      (map key_of specs ≡ map parcel_key parcels)
      × (map (λ call. call.collects) specs ≡ entries amounts (length parcels))

  IsPlanOf-cons :
      (a : Option ℕ) (rest amounts : Option (List ℕ)) (p : PhysicalParcel)
      (ps : List PhysicalParcel) (specs : List (Call A))
      → entries amounts (length (p ∷ ps)) ≡ a ∷ entries rest (length ps)
      → IsPlanOf rest ps specs
      → IsPlanOf amounts (p ∷ ps) (build p a ∷ specs)
  IsPlanOf-cons a rest amounts p ps specs e (k, c) =
      let f = key_of_build p a in let g = collects_build p a in (rw (f, k) refl, rw (e, g, c) refl)

  specs_from-Succeeds :
      (all : Option (List ℕ)) (position : ℕ) (rest : Option (List ℕ))
      (parcels : List PhysicalParcel)
      → From all position rest (length parcels)
      → Succeeds (IsPlanOf rest parcels) (specs_from build all position parcels)
  unfolding specs_from amount_at
  specs_from-Succeeds none position none [] h = (refl, refl)
  specs_from-Succeeds none position none (p ∷ ps) h =
      Succeeds-bind (IsPlanOf none ps) (IsPlanOf none (p ∷ ps))
        (specs_from build none (position + 1) ps) _
        (specs_from-Succeeds none (position + 1) none ps tt)
        λ specs i. IsPlanOf-cons none none none p ps specs refl i
  specs_from-Succeeds (some all) position (some []) [] h = (refl, refl)
  specs_from-Succeeds (some all) position (some (a ∷ rest)) [] h = absurd (omega (arith, h.0))
  specs_from-Succeeds (some all) position (some []) (p ∷ ps) h = absurd (omega (arith, h.0))
  specs_from-Succeeds (some all) position (some (a ∷ rest)) (p ∷ ps) h =
      let here : get_elem? all position ≡ some a = ap (get_elem? all) (omega arith) ∙ h.1 0 in
      let next : (i : ℕ) → get_elem? all (position + 1 + i) ≡ get_elem? rest i =
        λ i. ap (get_elem? all) (omega arith) ∙ h.1 (suc i) in
      Succeeds-bind (λ x. x ≡ some a) (IsPlanOf (some (a ∷ rest)) (p ∷ ps))
        (amount_at (some all) position) _ (amount_at-Succeeds all position a here)
        λ x e.
          Succeeds-bind (IsPlanOf (some rest) ps) (IsPlanOf (some (a ∷ rest)) (p ∷ ps))
            (specs_from build (some all) (position + 1) ps) _
            (specs_from-Succeeds (some all) (position + 1) (some rest) ps
              (omega (arith, h.0), next))
            λ specs i. rw e (IsPlanOf-cons (some a) (some rest) (some (a ∷ rest)) p ps specs refl i)
  specs_from-Succeeds none position (some rest) parcels h = absurd h
  specs_from-Succeeds (some all) position none parcels h = absurd h

module _ (names : ProductNames) (decimal : String → Option Decimal) (draft : CodDraft) where
  -- What the parcels of a draft collect: nothing, or an allocation of the draft's amount.
  abbrev pub Collected : Option (Option String) → List (Option ℕ) → Type 0
  Collected none collects =
      collects ≡ replicate (length (physical_parcels draft.packages_breakdown)) none
  Collected (some cod) collects =
      (a : CodAllocation) × Allocates names decimal draft a × (collects ≡ map some a.amounts)

  -- the amounts that the loop gets
  abbrev pub IsAgreed : Option (Option String) → Option (List ℕ) → Type 0
  IsAgreed none amounts = amounts ≡ none
  IsAgreed (some cod) amounts =
      (a : CodAllocation) × Allocates names decimal draft a × (amounts ≡ some a.amounts)

  pub split_amounts-Plans :
      (cod : Option String) → Plans (IsAgreed (some cod)) (split_amounts names decimal draft)
  unfolding split_amounts
  split_amounts-Plans cod =
      go (cod_allocation names decimal draft) (cod_allocation-Ensures names decimal draft)
    where
      go :
          (r : Result CodError CodAllocation)
          → Ensures (Allocates names decimal draft) r
          → Plans
              (IsAgreed (some cod))
              (elim r [ err e ↦ err (of_split e) | ok a ↦ ok (some a.amounts) ])
      go (err e) h = h
      go (ok a) h = (a, h, refl)

  -- A plan has one call for each physical parcel, in their order, and the calls collect what the
  -- draft owes.
  abbrev pub IsPlan : {A : Type 0} → List (Call A) → Type 0
  IsPlan specs =
      (map key_of specs ≡ map parcel_key (physical_parcels draft.packages_breakdown))
      × Collected draft.cod (map (λ call. call.collects) specs)

  module _ {A : Type 0} (build : PhysicalParcel → Option ℕ → Call A)
      (key_of_build : (p : PhysicalParcel) (a : Option ℕ) → key_of (build p a) ≡ parcel_key p)
      (collects_build : (p : PhysicalParcel) (a : Option ℕ) → (build p a).collects ≡ a) where
    pub Succeeds-agreed :
        (cod : Option (Option String)) (amounts : Option (List ℕ))
        → draft.cod ≡ cod
        → IsAgreed cod amounts
        → Succeeds IsPlan (specs_from build amounts 0 (physical_parcels draft.packages_breakdown))
    Succeeds-agreed none amounts e h =
        let parcels = physical_parcels draft.packages_breakdown in
        rw h (
          Succeeds-mono
            (λ specs i.
              (i.0, subst (λ o. Collected o (map (λ call. call.collects) specs)) (sym e) i.1))
            (specs_from build none 0 parcels)
            (specs_from-Succeeds build key_of_build collects_build none 0 none parcels tt))
    Succeeds-agreed (some cod) amounts e (a, (total, c, h), f) =
        let parcels = physical_parcels draft.packages_breakdown in
        rw f (
          Succeeds-mono
            (λ specs i. (
              i.0,
              subst (λ o. Collected o (map (λ call. call.collects) specs)) (sym e)
                  (a, (total, c, h), i.1),
            ))
            (specs_from build (some a.amounts) 0 parcels)
            (specs_from-Succeeds build key_of_build collects_build (some a.amounts) 0
              (some a.amounts) parcels (h.aligned, λ i. ap (get_elem? a.amounts) (omega arith))))

    pub Plans-agreed :
        (cod : Option (Option String)) (amounts : Option (List ℕ))
        → draft.cod ≡ cod
        → IsAgreed cod amounts
        → Plans IsPlan (specs_from build amounts 0 (physical_parcels draft.packages_breakdown))
    Plans-agreed cod amounts e h =
        Succeeds-Plans IsPlan
          (specs_from build amounts 0 (physical_parcels draft.packages_breakdown))
          (Succeeds-agreed cod amounts e h)
