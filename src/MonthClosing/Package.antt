-- ===== src/MonthClosing/Package.antt =====
-- zdrovena/month_closing/package_integrity.py: the package that was reviewed is the one that is sent. The
-- storage, the digest and the reader of archives are parameters; a payload is of any type.
pub mod Reviewed
use zdrovena_reconciliation.Prelude.{
  ℕ, String, Bool, true, false, not, ◌&&◌, Option, none, some, List, [], ◌∷◌, ◌==◌, str_eq,
  if◌then◌else◌,
}
use zdrovena_reconciliation.Prelude.Text.{sorted}
use zdrovena_reconciliation.Prelude.Result.{Result, ok, err}
use zdrovena_reconciliation.MonthClosing.Run.{Artifact}

-- `hashlib.sha256(…).hexdigest()`, `len`, and the names in a ZIP archive that do not end in a slash, or
-- nothing for a `BadZipFile`
pub record Payloads (B : Type 0) : Type 0 where
  pub digest : B → String
  pub size : B → ℕ
  pub namelist : B → Option (List String)

-- the storage: the blob at a key, or the text of what reading it raised
abbrev pub Blobs : Type 0 → Type 0
Blobs B = String → Result String B

-- `PackageIntegrityError`
pub data PackageIntegrityError : Type 0 where
  unreadable : String → String → PackageIntegrityError

-- why a package is not sent, by the messages
pub data Mismatch : Type 0 where
  not_recorded no_key no_hash unread changed_hash changed_size changed_manifest : Mismatch

-- `==` on lists of texts
unfoldable pub same_texts : List String → List String → Bool
same_texts [] [] = true
same_texts (s ∷ ss) (t ∷ ts) = str_eq s t && same_texts ss ts
same_texts _ _ = false

-- a text that is missing or empty is false
abbrev pub or_empty : Option String → String
or_empty none = ""
or_empty (some s) = s

module _ {B : Type 0} (payloads : Payloads B) where
  unfoldable pub build_package_artifact :
      Blobs B → String → List String → Result PackageIntegrityError Artifact
  build_package_artifact blobs key files = elim (blobs key) [
    | err e ↦ err (unreadable key e)
    | ok payload ↦ ok (record {
      kind = "package";
      key = some key;
      sha256 = some (payloads.digest payload);
      size_bytes = some (payloads.size payload);
      files = some (sorted files);
    })
  ]

  unfoldable pub verify_manifest : B → Option (List String) → Option Mismatch
  unfolding same_texts
  verify_manifest payload none = none
  verify_manifest payload (some recorded) = elim (payloads.namelist payload) [
    | none ↦ none
    | some names ↦
        if same_texts (sorted recorded) (sorted names) then none else some changed_manifest
  ]

  abbrev size_differs : Option ℕ → B → Bool
  size_differs none payload = false
  size_differs (some expected) payload = not (expected == payloads.size payload)

  abbrev verify_payload : Artifact → String → B → Option Mismatch
  verify_payload artifact expected_hash payload =
      if not (str_eq (payloads.digest payload) expected_hash)
      then some changed_hash
      else if size_differs artifact.size_bytes payload
      then some changed_size
      else verify_manifest payload artifact.files

  abbrev verify_blob : Artifact → String → Result String B → Option Mismatch
  verify_blob artifact expected_hash (err e) = some unread
  verify_blob artifact expected_hash (ok payload) = verify_payload artifact expected_hash payload

  unfoldable pub verify_package_artifact : Blobs B → Option Artifact → Option Mismatch
  unfolding verify_manifest
  verify_package_artifact blobs none = some not_recorded
  verify_package_artifact blobs (some artifact) =
      let key = or_empty artifact.key in
      let expected_hash = or_empty artifact.sha256 in
      if str_eq key ""
      then some no_key
      else if str_eq expected_hash ""
      then some no_hash
      else verify_blob artifact expected_hash (blobs key)
