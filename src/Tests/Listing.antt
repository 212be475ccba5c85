-- ===== src/Tests/Listing.antt =====
-- Listings of the draft store: runs and instances.
use zdrovena_reconciliation.Prelude.{◌≡◌, refl, String, ltb, length, [], ◌∷◌}
use zdrovena_reconciliation.Shipping.Draft.{text, Draft}
use zdrovena_reconciliation.Shipping.Store.{Store}
use zdrovena_reconciliation.Shipping.Listing.{draft_created_at, stored_drafts, list_drafts}
use zdrovena_reconciliation.Shipping.Listing.Newest.{Listed, warns, list_drafts-Listed}

abbrev dated : String → Draft
dated time = ("created_at", text time) ∷ []

abbrev archive : Store
archive = record {
  drafts =
      ("d1", dated "2026-01-02") ∷ ("d2", dated "2026-03-01") ∷ ("d3", dated "2026-02-01") ∷ [];
  dlq = [];
}

listing_run : (list_drafts 2 archive).1 ≡ dated "2026-03-01" ∷ dated "2026-02-01" ∷ []
unfolding list_drafts
listing_run = refl

list_drafts-Listed_example :
    let (notices, listed) = list_drafts 2 archive in
    Listed draft_created_at 2 (stored_drafts archive) listed
    × (warns notices ≡ ltb 2 (length (stored_drafts archive)))
list_drafts-Listed_example = list_drafts-Listed 2 archive
