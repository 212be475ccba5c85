-- ===== src/Shipping/Planning/Load.antt =====
-- planning.py: the weight of a draft's boxes and the dimensions of the largest, from which
-- `_parcel_template` in zdrovena/api/shipping_execution_composition.py chooses a locker size. The calls
-- to the couriers take each parcel's own dimensions instead.
use zdrovena_reconciliation.Prelude.{
  ℕ, ◌+◌, ◌*◌, ◌≤◌, ◌≡◌, Option, none, some, List, [], ◌∷◌, arith, ltb, if◌then◌else◌,
}
use zdrovena_reconciliation.Shipping.Parcels.{ParcelSpec, parcel_specs, default_dims, BreakdownRow}

-- The loop of `parcel_weight_and_dims`: weight, largest volume and its record so far. A missing
-- `qty` counts 1; a box with no record is passed over.
pub record Load : Type 0 where
  pub weight : ℕ
  pub volume : ℕ
  pub dims : ParcelSpec

abbrev pub volume_of : ParcelSpec → ℕ
volume_of spec = spec.length * spec.width * spec.height

abbrev qty_or_one : Option ℕ → ℕ
qty_or_one none = 1
qty_or_one (some q) = q

add_box : Option ParcelSpec → ℕ → Load → Load
add_box none qty load = load
add_box (some spec) qty load =
    let larger = ltb load.volume (volume_of spec) in
    record {
      weight = load.weight + spec.weight_kg * qty;
      volume = if larger then volume_of spec else load.volume;
      dims = if larger then spec else load.dims;
    }

abbrev spec_of_row : BreakdownRow → Option ParcelSpec
spec_of_row row = elim row.row_type [ none ↦ none | some t ↦ parcel_specs t ]

add_boxes : List BreakdownRow → Load → Load
unfolding add_box
add_boxes [] load = load
add_boxes (row ∷ rows) load = add_boxes rows (add_box (spec_of_row row) (qty_or_one row.qty) load)

pub parcel_weight_and_dims : List BreakdownRow → ℕ × ParcelSpec
unfolding add_boxes
parcel_weight_and_dims rows =
    let load = add_boxes rows (record { weight = 0; volume = 0; dims = default_dims }) in
    (if ltb 0 load.weight then load.weight else 6, load.dims)

-- the weight of the listed boxes
abbrev pub catalogue_weight : List BreakdownRow → ℕ
catalogue_weight [] = 0
catalogue_weight (row ∷ rows) =
    (elim (spec_of_row row) [ none ↦ 0 | some spec ↦ spec.weight_kg * qty_or_one row.qty ])
    + catalogue_weight rows

weight-add_boxes :
    (rows : List BreakdownRow) (load : Load)
    → (add_boxes rows load).weight ≡ load.weight + catalogue_weight rows
unfolding add_boxes
weight-add_boxes [] load = omega arith
weight-add_boxes (row ∷ rows) load =
    ground (arith, weight-add_boxes rows (add_box (spec_of_row row) (qty_or_one row.qty) load))

-- The declared weight is that of the listed boxes, and 6 kg where none of them weighs anything.
pub parcel_weight_and_dims_weight :
    (rows : List BreakdownRow)
    → (parcel_weight_and_dims rows).0
      ≡ (if ltb 0 (catalogue_weight rows) then catalogue_weight rows else 6)
unfolding parcel_weight_and_dims
parcel_weight_and_dims_weight rows =
    rw (weight-add_boxes rows (record { weight = 0; volume = 0; dims = default_dims }))
      (ground arith)

abbrev pub Covers : ℕ → List BreakdownRow → Type 0
Covers v [] = Unit
Covers v (row ∷ rows) =
    ((spec : ParcelSpec) → spec_of_row row ≡ some spec → volume_of spec ≤ v) × Covers v rows

volume_mono : (rows : List BreakdownRow) (load : Load) → load.volume ≤ (add_boxes rows load).volume
unfolding add_boxes
volume_mono [] load = omega arith
volume_mono (row ∷ rows) load =
    ground (arith, volume_mono rows (add_box (spec_of_row row) (qty_or_one row.qty) load))

add_boxes-Covers :
    (rows : List BreakdownRow) (load : Load) → Covers (add_boxes rows load).volume rows
unfolding add_boxes
add_boxes-Covers [] load = tt
add_boxes-Covers (row ∷ rows) load =
    let next = add_box (spec_of_row row) (qty_or_one row.qty) load in
    (λ spec e. ground (arith, volume_mono rows next), add_boxes-Covers rows next)

volume-le-dims :
    (rows : List BreakdownRow) (load : Load)
    → load.volume ≤ volume_of load.dims
    → (add_boxes rows load).volume ≤ volume_of (add_boxes rows load).dims
unfolding add_boxes
volume-le-dims [] load h = h
volume-le-dims (row ∷ rows) load h =
    volume-le-dims rows (add_box (spec_of_row row) (qty_or_one row.qty) load) (ground arith)

Covers-mono : (v w : ℕ) (rows : List BreakdownRow) → v ≤ w → Covers v rows → Covers w rows
Covers-mono v w [] h c = tt
Covers-mono v w (row ∷ rows) h c = (λ spec e. omega (arith, c.0 spec e), Covers-mono v w rows h c.1)

-- The dimensions that `parcel_weight_and_dims` gives for a draft's rows are at least as large in volume as
-- those of every box listed there that has a record.
pub parcel_weight_and_dims-Covers :
    (rows : List BreakdownRow) → Covers (volume_of (parcel_weight_and_dims rows).1) rows
unfolding parcel_weight_and_dims
parcel_weight_and_dims-Covers rows =
    let start : Load = record { weight = 0; volume = 0; dims = default_dims } in
    Covers-mono (add_boxes rows start).volume (volume_of (add_boxes rows start).dims) rows
      (volume-le-dims rows start (omega arith)) (add_boxes-Covers rows start)
