-- ===== src/Shipping/Planning/Reference.antt =====
-- planning.py: how a parcel is named on the courier's label. A reference is the record of its parts,
-- which the source prints into one line.
use zdrovena_reconciliation.Prelude.{ℕ, String, Option, none, some, ltb, if◌then◌else◌}
use zdrovena_reconciliation.Shipping.Parcels.{PackageType, glass_box, glass_two_pak}

-- `_parcel_material_and_size`: the material, and the size's text or the package type itself
pub data Material : Type 0 where
  glass plastic : Material

pub data SizeText : Type 0 where
  one_glass two_glass : SizeText
  same_as_type : PackageType → SizeText

pub parcel_material_and_size : PackageType → Material × SizeText
parcel_material_and_size glass_box = (glass, one_glass)
parcel_material_and_size glass_two_pak = (glass, two_glass)
parcel_material_and_size t = (plastic, same_as_type t)

pub record Reference : Type 0 where
  pub order_number : String
  pub material : Material
  pub size : SizeText
  pub part : Option (ℕ × ℕ)

pub shipment_reference : String → PackageType → ℕ → ℕ → Reference
unfolding parcel_material_and_size
shipment_reference order_number package_type package_number package_count =
    let (m, s) = parcel_material_and_size package_type in
    record {
      order_number = order_number;
      material = m;
      size = s;
      part = if ltb 1 package_count then some (package_number, package_count) else none;
    }
