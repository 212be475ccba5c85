-- ===== src/MonthClosing/Package/Reviewed.antt =====
-- The check of a package accepts what was reviewed, and nothing else.
use zdrovena_reconciliation.Prelude.{
  ◌≡◌, refl, sym, ap, ◌∙◌, String, true, false, Option, none, some, List, [], ◌∷◌, ◌==◌, str_eq,
  eq_iff, inl, inr, Bool-cases, arith,
}
use zdrovena_reconciliation.Prelude.Dict.{str_eq_self}
use zdrovena_reconciliation.Prelude.Text.{sorted, sorted-sorted}
use zdrovena_reconciliation.Prelude.Result.{ok, Result-cases}
use zdrovena_reconciliation.MonthClosing.Run.{Artifact}
use zdrovena_reconciliation.MonthClosing.Package.{
  Payloads, Blobs, same_texts, build_package_artifact, verify_manifest, verify_package_artifact,
}

same_texts_self : (xs : List String) → same_texts xs xs ≡ true
unfolding same_texts
same_texts_self [] = refl
same_texts_self (x ∷ xs) = rw (str_eq_self x) (same_texts_self xs)

-- the archive holds the listed files, or is no archive
abbrev pub Lists : {B : Type 0} → Payloads B → List String → B → Type 0
Lists payloads files payload = elim (payloads.namelist payload) [
  | none ↦ Unit
  | some names ↦ sorted names ≡ sorted files
]

module _ {B : Type 0} (payloads : Payloads B) where
  verify_manifest-sorted :
      (payload : B) (files : List String)
      → Lists payloads files payload
      → verify_manifest payloads payload (some (sorted files)) ≡ none
  unfolding verify_manifest
  verify_manifest-sorted payload files h = by_names (payloads.namelist payload) refl h
    where
      by_names :
          (n : Option (List String))
          → payloads.namelist payload ≡ n
          → (elim n as (λ m. Type 0) [ none ↦ Unit | some names ↦ sorted names ≡ sorted files ])
          → verify_manifest payloads payload (some (sorted files)) ≡ none
      by_names none q h = rw (q, verify_manifest)
      by_names (some names) q h =
          rw (q, verify_manifest)
            (rw (sorted-sorted files, h) (rw (same_texts_self (sorted files))))

  -- what a built package's record says
  abbrev record_of : B → String → List String → Artifact
  record_of payload key files = record {
    kind = "package";
    key = some key;
    sha256 = some (payloads.digest payload);
    size_bytes = some (payloads.size payload);
    files = some (sorted files);
  }

  built :
      (blobs : Blobs B) (key : String) (files : List String) (artifact : Artifact)
      → build_package_artifact payloads blobs key files ≡ ok artifact
      → (payload : B) × (blobs key ≡ ok payload) × (artifact ≡ record_of payload key files)
  unfolding build_package_artifact
  built blobs key files artifact h = elim (Result-cases (blobs key)) [
    | inl (e, q) ↦ let k = rw (q, build_package_artifact) at h in cc
    | inr (payload, q) ↦ let k = rw (q, build_package_artifact) at h in (payload, q, cc)
  ]

  -- A package that is recorded when it is built passes the check before it is sent, as long as the storage
  -- still has it at its key, whatever else changed there: given that its key and its digest are not empty
  -- and that the archive, if it is one, holds the files that were listed, in any order.
  pub verify_package_artifact-build_package_artifact :
      (before after : Blobs B) (key : String) (files : List String) (payload : B)
      (artifact : Artifact)
      → build_package_artifact payloads before key files ≡ ok artifact
      → before key ≡ ok payload
      → after key ≡ ok payload
      → str_eq key "" ≡ false
      → str_eq (payloads.digest payload) "" ≡ false
      → Lists payloads files payload
      → verify_package_artifact payloads after (some artifact) ≡ none
  unfolding verify_package_artifact
  verify_package_artifact-build_package_artifact before after key files payload artifact b e f k d
        l =
      let (payload', e', a) = built before key files artifact b in
      let same_payload : payload' ≡ payload = cc in
      let a' : artifact ≡ record_of payload key files = rw same_payload at a in
      let size_same : (payloads.size payload == payloads.size payload) ≡ true = ground arith in
      rw a' (
        rw (k, verify_package_artifact)
          (rw (d, verify_package_artifact)
            (rw (f, verify_package_artifact)
              (rw (str_eq_self (payloads.digest payload))
                (rw size_same (verify_manifest-sorted payload files l))))))

  -- Where no two payloads share a digest, a package whose record passes the check is, byte for byte, the one
  -- that was there when the record was made.
  pub verify_package_artifact_same :
      ((b b' : B) → payloads.digest b ≡ payloads.digest b' → b ≡ b')
      → (before after : Blobs B) (key : String) (files : List String) (artifact : Artifact)
      → build_package_artifact payloads before key files ≡ ok artifact
      → verify_package_artifact payloads after (some artifact) ≡ none
      → after key ≡ before key
  unfolding verify_package_artifact
  verify_package_artifact_same collision_free before after key files artifact b v =
      let (payload, e, a) = built before key files artifact b in
      let v' : verify_package_artifact payloads after (some (record_of payload key files)) ≡ none =
        rw a at v in
      passed payload e v'
    where
      passed :
          (payload : B)
          → before key ≡ ok payload
          → verify_package_artifact payloads after (some (record_of payload key files)) ≡ none
          → after key ≡ before key
      passed payload e v = elim (Bool-cases (str_eq key "")) [
        | inl k ↦ let f = rw (k, verify_package_artifact) at v in cc
        | inr k ↦ elim (Bool-cases (str_eq (payloads.digest payload) "")) [
          | inl d ↦
              let f = rw (d, verify_package_artifact) at (rw (k, verify_package_artifact) at v) in
              cc
          | inr d ↦
              let w = rw (d, verify_package_artifact) at (rw (k, verify_package_artifact) at v) in
              elim (Result-cases (after key)) [
                | inl (x, q) ↦ let f = rw (q, verify_package_artifact) at w in cc
                | inr (payload', q) ↦
                    let u = rw (q, verify_package_artifact) at w in
                    elim (Bool-cases
                      (str_eq (payloads.digest payload') (payloads.digest payload))) [
                        | inl s ↦
                            q ∙ ap ok (collision_free payload' payload ((eq_iff _ _).0 s)) ∙ sym e
                        | inr s ↦ let f = rw s at u in cc
                      ]
              ]
        ]
      ]
