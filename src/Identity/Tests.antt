-- ===== src/Identity/Tests.antt =====
-- Names, statuses, issue types and labels on samples, and the theorems at them.
use ipointel.Base.{◌≡◌, refl, some}
use ipointel.Base.Text.{codes}
use ipointel.Identity.Names.{canonical_name}
use ipointel.Identity.Names.Canonical.{canonical_name_idempotent}
use ipointel.Identity.IssueType.{classify_issue_type, sme_ipo}
use ipointel.Identity.Labels.{
  Json.text, items, end, item, sanitize_label, sanitize_tree, IsClean, sanitize_tree-IsClean,
}

canonical_green :
    canonical_name (λ s. s) (codes "adani (india) green energy ltd.") ≡ codes "adani green energy"
unfolding canonical_name
canonical_green = refl

legacy_wording : sanitize_label (codes "INVEST — STRONG") ≡ codes "INVEST: STRONG"
unfolding sanitize_label
legacy_wording = refl

other_wording : sanitize_label (codes "a — b—c") ≡ codes "a, b-c"
unfolding sanitize_label
other_wording = refl

sme_class : classify_issue_type (λ s. s) (codes "sme-ipo") ≡ some sme_ipo
unfolding classify_issue_type
sme_class = refl

canonical_name_idempotent_example :
    canonical_name (λ s. s) (canonical_name (λ s. s) (codes "acme & co (india) ltd."))
    ≡ canonical_name (λ s. s) (codes "acme & co (india) ltd.")
canonical_name_idempotent_example =
    canonical_name_idempotent (λ s. s) (λ s h. refl) (codes "acme & co (india) ltd.")

sanitize_tree-IsClean_example : IsClean (sanitize_tree (items (item (text (codes "a — b")) end)))
sanitize_tree-IsClean_example = sanitize_tree-IsClean (items (item (text (codes "a — b")) end))
