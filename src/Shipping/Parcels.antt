-- ===== src/Shipping/Parcels.antt =====
-- zdrovena/common/shipping_parcels.py and zdrovena/shipping/domain/models.py: the parcel catalogue
-- and the value objects of planning. Lengths are whole centimetres and weights whole kilograms, as
-- in the catalogue. The package type texts are a data type; `unlisted` is any other text.
use zdrovena_reconciliation.Prelude.{ℕ, String, Option, none, some, List}

pub data PackageType : Type 0 where
  three_pak two_pak one_pak half_pak glass_box glass_two_pak : PackageType
  unlisted : String → PackageType

-- A record of `PARCEL_SPECS`, which is also what `ParcelSpec.from_record` reads.
pub record ParcelSpec : Type 0 where
  pub length : ℕ
  pub width : ℕ
  pub height : ℕ
  pub weight_kg : ℕ
  pub paczkomat_template : Option String

abbrev large_parcel : ℕ → ℕ → ℕ → ℕ → ParcelSpec
large_parcel l w h kg = record {
  length = l;
  width = w;
  height = h;
  weight_kg = kg;
  paczkomat_template = some "large";
}

-- `PARCEL_SPECS.get(package_type)`
unfoldable pub parcel_specs : PackageType → Option ParcelSpec
parcel_specs three_pak = some (large_parcel 40 40 20 18)
parcel_specs two_pak = some (large_parcel 40 30 20 12)
parcel_specs one_pak = some (large_parcel 30 20 20 6)
parcel_specs half_pak = some (large_parcel 20 15 20 3)
parcel_specs glass_box = some (large_parcel 30 30 20 9)
parcel_specs glass_two_pak = some (large_parcel 30 30 20 9)
parcel_specs (unlisted t) = none

abbrev pub default_dims : ParcelSpec
default_dims = large_parcel 30 20 20 6

-- `PARCEL_HALF_PACKS.get(package_type)`
abbrev pub parcel_half_packs : PackageType → Option ℕ
parcel_half_packs three_pak = some 6
parcel_half_packs two_pak = some 4
parcel_half_packs one_pak = some 2
parcel_half_packs half_pak = some 1
parcel_half_packs glass_box = some 2
parcel_half_packs glass_two_pak = some 4
parcel_half_packs (unlisted t) = none

pub data Carrier : Type 0 where
  inpost orlen dpd_automat dpd_punkt : Carrier
  unlisted : String → Carrier

pub record Slot : Type 0 where
  pub height : ℕ
  pub width : ℕ
  pub depth : ℕ
  pub max_weight_kg : ℕ

-- `LOCKER_LARGE_SLOT.get(carrier)`
unfoldable pub locker_large_slot : Carrier → Option Slot
locker_large_slot inpost = some (record { height = 41; width = 38; depth = 64; max_weight_kg = 25 })
locker_large_slot orlen = some (record { height = 41; width = 38; depth = 60; max_weight_kg = 20 })
locker_large_slot dpd_automat =
    some (record { height = 50; width = 44; depth = 59; max_weight_kg = 20 })
locker_large_slot dpd_punkt =
    some (record { height = 64; width = 41; depth = 38; max_weight_kg = 20 })
locker_large_slot (unlisted c) = none

pub record PackageBreakdownItem : Type 0 where
  pub package_type : PackageType
  pub quantity : ℕ

pub record PhysicalParcel : Type 0 where
  pub package_type : PackageType
  pub position : ℕ
  pub count_for_type : ℕ

pub record PackagePlan : Type 0 where
  pub package_count : ℕ
  pub breakdown : List PackageBreakdownItem

-- A row of a draft's `packages_breakdown`: both keys may be missing or empty.
pub record BreakdownRow : Type 0 where
  pub row_type : Option PackageType
  pub qty : Option ℕ

-- `PackageBreakdownItem.to_legacy_dict`
abbrev pub to_legacy_row : PackageBreakdownItem → BreakdownRow
to_legacy_row item = record { row_type = some item.package_type; qty = some item.quantity }
