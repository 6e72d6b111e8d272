-- ===== src/Json/Collect/Printed.antt =====
-- cmd/mq_json/exporter.go, Collect: what a call prints.
use mq_metric_samples.Prelude.{
  ℕ, Bytes, ◌<◌, ◌≤◌, length, Bool, List, ◌++◌, some, All, ◌≡◌, if◌then◌else◌,
}
use mq_metric_samples.Json.Chunk.{flat}
use mq_metric_samples.Json.Collect.{Exporter, World, points_of, fill}
use mq_metric_samples.Json.Points.Merge.Stored.{InStore, IsStored, Kept}
use mq_metric_samples.Json.Points.{Point, PointMap, Points}

-- The points have their metrics in the store.
abbrev pub HeldIn : ℕ → List Point → Type 0
HeldIn n ps = All (λ pt. pt.metric < n) ps

abbrev pub IsHeld : {F : Type 0} → Exporter F → Type 0
IsHeld s = HeldIn (length s.points.store) s.all_points

module _ {F : Type 0} (trim_space : Bytes → Bytes) (topic_key : Bytes → Bytes → Bytes)
    (w : World F) where
  abbrev Filled : Points F → PointMap × Points F → Type 0
  Filled p r = InStore (length r.1.store) r.0 × IsStored r.1 × (length p.store ≤ length r.1.store)

  -- The call lists the points of its status, or keeps the list where the status was not polled, then
  -- those of its publications and of its statistics, and prints this list.
  abbrev pub Lists : Bool → Exporter F → Exporter F → List (List Point) → Type 0
  Lists poll_status s s' chunks =
      (flat chunks ≡ s'.all_points)
      × ((m : PointMap) × (fill trim_space topic_key w poll_status s.points ≡ some (m, s'.points))
          × (s'.all_points
              ≡ (if poll_status then points_of s'.points.status else s.all_points)
                ++ (points_of s'.points.published ++ points_of m)))
