-- ===== src/Badges/Write/Kept.antt =====
-- ai/pipeline.py: what a commit does to the rows of agenda_item_badges.
use docket_pub.Prelude.{ℕ, ◌≡◌, ◌⊎◌, Bool, Option, none, some, List, ◌++◌, String, Text, All}
use docket_pub.Scoring.Facts.{Facts, Rewrite}
use docket_pub.Scoring.Floors.{Override}
use docket_pub.Votes.Words.{Unicode}
use docket_pub.Badges.Types.{Row, item_of, Badge}
use docket_pub.Badges.Process.{process_badge}
use docket_pub.Badges.Policy.{EnabledBadge, Decided}
use docket_pub.Badges.Policy.Backed.{IsBacked}
use docket_pub.Badges.Write.{Tables, policy_badge}

-- A table that another extends by rows that all have a property.
abbrev pub Extends : (Badge → Type 0) → (old new : List Badge) → Type 0
Extends P old new = (added : List Badge) × (new ≡ old ++ added) × All P added

or_these : Tables → Option Tables → Tables
or_these d none = d
or_these d (some t) = t

module _ (unit : ℕ) (floor_overrides : List Override) (u : Unicode)
    (search : (pattern text : Text) → Option Bool) (enabled : List EnabledBadge) where
  -- A badge of the row that came about by its process rules, or by a policy that stands behind it.
  abbrev pub IsEarned : Row → Facts → Rewrite → Badge → Type 0
  IsEarned row facts rewrite b =
      ((s : String) × (b ≡ process_badge row.id row.city_id s))
      ⊎ ((d : Decided) × (b ≡ policy_badge row.id row.city_id d)
          × IsBacked u search row.topic (item_of row) facts rewrite.suggested_badge_slugs enabled d)
