-- ===== src/Shipping/Providers/Inpost/Collects.antt =====
-- What `inpost_call_specs` plans: the parcels, and what each of them collects.
use zdrovena_reconciliation.Prelude.{
  ℕ, ◌≡◌, refl, String, true, not, ◌&&◌, Option, none, some, List, length, arith, ◌==◌, inl, inr,
  Bool-cases, Option-cases, str_eq,
}
use zdrovena_reconciliation.Prelude.Dict.{Dict}
use zdrovena_reconciliation.Shipping.Sync.{normalize_pl_phone}
use zdrovena_reconciliation.Shipping.Planning.{ProductNames, physical_parcels}
use zdrovena_reconciliation.Shipping.Cod.Money.{Decimal}
use zdrovena_reconciliation.Shipping.Providers.Calls.{
  ShipmentDraft, specs_from, split_amounts, Call,
}
use zdrovena_reconciliation.Shipping.Providers.Inpost.{
  InpostArguments, is_locker, inpost_call, inpost_amounts, specs_for, inpost_call_specs,
}
use zdrovena_reconciliation.Shipping.Providers.Plans.{
  Plans, Plans-bind, Plans-mono, IsAgreed, IsPlan, split_amounts-Plans, Plans-agreed,
}

module _ (names : ProductNames) (decimal : String → Option Decimal) (digits_of : String → String)
    (draft : ShipmentDraft) where
  -- what a locker cannot do: collect for more than one parcel
  abbrev pub FitsLocker : Option (Option String) → ℕ → Type 0
  FitsLocker none count = Unit
  FitsLocker (some cod) count = is_locker draft ≡ true → count ≡ 1

  abbrev IsAmounts : Option (Option String) → ℕ → Option (List ℕ) → Type 0
  IsAmounts cod count amounts =
      IsAgreed names decimal draft.money cod amounts × FitsLocker cod count

  inpost_amounts-Plans :
      (count : ℕ) (cod : Option (Option String))
      → Plans (IsAmounts cod count) (inpost_amounts names decimal digits_of draft count cod)
  unfolding inpost_amounts
  inpost_amounts-Plans count none = (refl, tt)
  inpost_amounts-Plans count (some cod) = elim (Bool-cases (is_locker draft && not (count == 1))) [
    | inl f ↦ rw f tt
    | inr f ↦ rw f (
        Plans-mono (λ amounts a. (a, λ l. ground arith)) (split_amounts names decimal draft.money)
          (split_amounts-Plans names decimal draft.money cod))
  ]

  -- one call for each parcel, together collecting what the draft owes, and a locker's only once
  abbrev pub IsInpostPlan : List (Call InpostArguments) → Type 0
  IsInpostPlan specs =
      IsPlan names decimal draft.money specs
      × FitsLocker draft.money.cod (length (physical_parcels draft.money.packages_breakdown))

  specs_for-Plans :
      (sender : Dict String) (phone : String)
      → Plans IsInpostPlan (specs_for names decimal digits_of draft sender phone)
  specs_for-Plans sender phone =
      let parcels = physical_parcels draft.money.packages_breakdown in
      Plans-bind (IsAmounts draft.money.cod (length parcels)) IsInpostPlan _ _
        (inpost_amounts-Plans (length parcels) draft.money.cod)
        λ amounts (agreed, fits).
          Plans-mono (λ specs p. (p, fits))
            (specs_from (inpost_call draft sender phone) amounts 0 parcels)
            (Plans-agreed names decimal draft.money (inpost_call draft sender phone) (λ p a. refl)
              (λ p a. refl) draft.money.cod amounts refl agreed)

  -- Planning the calls to InPost ends in one of two ways. It returns one call for each physical parcel
  -- of the draft, in their order and under their types and numbers. Without a collection amount no
  -- call collects anything; with one, the calls collect an allocation of it: amounts that are not
  -- zero and add up to the draft's amount to the grosz, and at a locker there is one call only. Or it
  -- refuses: unreadable collection data, no Polish phone number, a locker for several parcels, or a
  -- refusal of the split, its uncaught `decimal.InvalidOperation` on more than 28 digits counted in. No parcel is left without its amount by an index out of range.
  pub inpost_call_specs-Plans :
      (sender : Dict String)
      → Plans IsInpostPlan (inpost_call_specs names decimal digits_of draft sender)
  unfolding inpost_call_specs
  inpost_call_specs-Plans sender = elim (Bool-cases (str_eq draft.cod_error "")) [
    | inr f ↦ rw (f, inpost_call_specs) tt
    | inl f ↦
        rw (f, inpost_call_specs)
          (elim (Option-cases (normalize_pl_phone digits_of draft.receiver.phone)) [
            | inl g ↦ rw g tt
            | inr (phone, g) ↦ rw g (specs_for-Plans sender phone)
          ])
  ]
