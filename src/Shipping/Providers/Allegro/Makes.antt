-- ===== src/Shipping/Providers/Allegro/Makes.antt =====
-- Actions beside a record of the create-commands, and how many they make for one parcel.
use zdrovena_reconciliation.Prelude.{
  ℕ, ◌+◌, ◌≤◌, ◌≡◌, refl, ap, Bool, false, not, ◌||◌, Option, none, some, List, [], ◌∷◌, arith,
  str_eq, if◌then◌else◌, inl, inr, Bool-cases,
}
use zdrovena_reconciliation.Prelude.Result.{Result, ok, err}
use zdrovena_reconciliation.Shipping.Providers.Calls.{Key, same_parcel_key}
use zdrovena_reconciliation.Shipping.Providers.Keys.{count, same_parcel_key-eq}
use zdrovena_reconciliation.Shipping.Providers.Allegro.{
  AllegroShipment, Shipments, shipment_of, set_shipment,
}
use zdrovena_reconciliation.Shipping.Providers.Allegro.Pickup.{AllegroRaised, Attempted, ◌>>=◌}
use zdrovena_reconciliation.Shipping.Providers.Allegro.Run.{beside}

-- a shipment that has its id, or at least its command
abbrev pub has_command : Option AllegroShipment → Bool
has_command none = false
has_command (some s) = not (str_eq s.id "") || not (str_eq s.allegro_command_id "")

pub shipment_of-set_shipment :
    (k j : Key) (s : AllegroShipment) (m : Shipments)
    → shipment_of k (set_shipment j s m) ≡ (if same_parcel_key k j then some s else shipment_of k m)
unfolding shipment_of set_shipment
shipment_of-set_shipment k j s [] = refl
shipment_of-set_shipment k j s ((i, t) ∷ rest) = elim (Bool-cases (same_parcel_key j i)) [
  | inl e ↦
      let g : same_parcel_key k j ≡ same_parcel_key k i =
        ap (same_parcel_key k) (same_parcel_key-eq j i e) in
      ground (arith, e, g)
  | inr e ↦ elim (Bool-cases (same_parcel_key k j)) [
    | inl f ↦
        let g : same_parcel_key k i ≡ same_parcel_key j i =
          ap (λ x. same_parcel_key x i) (same_parcel_key-eq k j f) in
        ground (arith, e, f, g, shipment_of-set_shipment k j s rest)
    | inr f ↦ ground (arith, e, f, shipment_of-set_shipment k j s rest)
  ]
]

-- an action that makes at most `n` commands for the parcel `k`
abbrev pub Makes : {S A : Type 0} → Key → ℕ → Attempted (S × List Key) A → Type 0
Makes {S = S} k n m = (s : S) (log : List Key) → count k (m (s, log)).1.1 ≤ count k log + n

pub Makes-bind :
    {S A B : Type 0} (k : Key) (a b : ℕ) (m : Attempted (S × List Key) A)
    (f : A → Attempted (S × List Key) B)
    → Makes k a m
    → ((x : A) → Makes k b (f x))
    → Makes k (a + b) (m >>= f)
Makes-bind {S = S} {A = A} {B = B} k a b m f h g s log = go (m (s, log)).0 (m (s, log)).1 (h s log)
  where
    go :
        (r : Result AllegroRaised A) (after : S × List Key)
        → count k after.1 ≤ count k log + a
        → count k (((λ t. (r, t)) >>= f) after).1.1 ≤ count k log + (a + b)
    go (err e) after p = omega arith
    go (ok x) (s', log') p = omega (arith, g x s' log')

-- after an action that makes none
pub Makes-after :
    {S A B : Type 0} (k : Key) (n : ℕ) (m : Attempted (S × List Key) A)
    (f : A → Attempted (S × List Key) B)
    → Makes k 0 m
    → ((x : A) → Makes k n (f x))
    → Makes k n (m >>= f)
Makes-after k n m f h g s log = omega (arith, Makes-bind k 0 n m f h g s log)

-- before one
pub Makes-before :
    {S A B : Type 0} (k : Key) (n : ℕ) (m : Attempted (S × List Key) A)
    (f : A → Attempted (S × List Key) B)
    → Makes k n m
    → ((x : A) → Makes k 0 (f x))
    → Makes k n (m >>= f)
Makes-before k n m f h g s log = omega (arith, Makes-bind k n 0 m f h g s log)

pub Makes-beside :
    {S A : Type 0} (k : Key) (m : Attempted S A) → Makes k 0 (beside {B = List Key} m)
Makes-beside k m s log = omega arith
