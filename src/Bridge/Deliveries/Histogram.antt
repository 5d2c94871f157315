-- ===== src/Bridge/Deliveries/Histogram.antt =====
-- What `getStatusHistogram` of `MemoryBridgeDeliveryRepo` (bridge/bridge-delivery.memory-backend.ts)
-- counts.
use codegen_patterns.Base.{
  ℕ, zero, suc, ◌∙◌, ◌+◌, ◌≤◌, String, Option, Bool, true, false, ◌&&◌, List, [], ◌∷◌, ◌≡◌, refl,
  arith, inl, inr, if◌then◌else◌, length, keep, Bool-cases,
}
use codegen_patterns.Base.Dict.{values}
use codegen_patterns.Bridge.Deliveries.{
  BridgeDeliveryStatus, pending, delivered, skipped, failed, BridgeDeliveryRecord, Deliveries,
  StatusHistogram, ok, err, window_not_positive, count_status, count_deliveries, no_counts,
  of_tenant, in_window, get_status_histogram,
}

-- `histogram[status]`
abbrev pub at_status : BridgeDeliveryStatus → StatusHistogram → ℕ
at_status pending h = h.pending
at_status delivered h = h.delivered
at_status skipped h = h.skipped
at_status failed h = h.failed

abbrev pub has_status : BridgeDeliveryStatus → BridgeDeliveryStatus → Bool
has_status pending pending = true
has_status delivered delivered = true
has_status skipped skipped = true
has_status failed failed = true
has_status _ _ = false

abbrev one_if : Bool → ℕ
one_if b = if b then 1 else 0

at_status-count_status :
    (s t : BridgeDeliveryStatus) (h : StatusHistogram)
    → at_status s (count_status t h) ≡ at_status s h + one_if (has_status t s)
unfolding count_status
at_status-count_status pending pending h = omega arith
at_status-count_status pending delivered h = omega arith
at_status-count_status pending skipped h = omega arith
at_status-count_status pending failed h = omega arith
at_status-count_status delivered pending h = omega arith
at_status-count_status delivered delivered h = omega arith
at_status-count_status delivered skipped h = omega arith
at_status-count_status delivered failed h = omega arith
at_status-count_status skipped pending h = omega arith
at_status-count_status skipped delivered h = omega arith
at_status-count_status skipped skipped h = omega arith
at_status-count_status skipped failed h = omega arith
at_status-count_status failed pending h = omega arith
at_status-count_status failed delivered h = omega arith
at_status-count_status failed skipped h = omega arith
at_status-count_status failed failed h = omega arith

at_status-count_deliveries :
    (s : BridgeDeliveryStatus) (counts : BridgeDeliveryRecord → Bool)
    (ds : List BridgeDeliveryRecord) (h : StatusHistogram)
    → at_status s (count_deliveries counts ds h)
      ≡ at_status s h + length (keep (λ d. counts d && has_status d.status s) ds)
unfolding count_deliveries
at_status-count_deliveries s counts [] h = omega arith
at_status-count_deliveries s counts (d ∷ ds) h = elim (Bool-cases (counts d)) [
  | inl e ↦
      rw
        (
          e,
          at_status-count_deliveries s counts ds (count_status d.status h),
          at_status-count_status s d.status h,
        )
        (elim (Bool-cases (has_status d.status s)) [
          | inl q ↦ rw q (omega arith)
          | inr q ↦ rw q (omega arith)
        ])
  | inr e ↦ rw e (at_status-count_deliveries s counts ds h)
]

at_status-no_counts : (s : BridgeDeliveryStatus) (n : ℕ) → at_status s no_counts + n ≡ n
at_status-no_counts pending n = omega arith
at_status-no_counts delivered n = omega arith
at_status-no_counts skipped n = omega arith
at_status-no_counts failed n = omega arith

-- For a window of at least one hour the histogram names, for each status, the number of stored
-- deliveries of that status that were attempted not longer ago than the window and belong to the
-- tenant asked for (any tenant if none is named); for an empty window the call throws.
pub get_status_histogram_lem :
    (window_hours : ℕ) (tenant : Option (Option String)) (now : ℕ) (ds : Deliveries)
    → (1 ≤ window_hours
        → (h : StatusHistogram) × (get_status_histogram window_hours tenant now ds ≡ ok h)
          × ((s : BridgeDeliveryStatus)
              → at_status s h
                ≡ length (
                    keep
                      (λ d.
                        (in_window window_hours now d && of_tenant tenant d)
                        && has_status d.status s)
                      (values ds))))
      × (get_status_histogram 0 tenant now ds ≡ err window_not_positive)
unfolding get_status_histogram
get_status_histogram_lem zero tenant now ds = ((λ h. absurd (omega arith)), refl)
get_status_histogram_lem (suc n) tenant now ds = (
  λ h. (
    count_deliveries (λ d. in_window (suc n) now d && of_tenant tenant d) (values ds) no_counts,
    refl,
    λ s.
        (at_status-count_deliveries s (λ d. in_window (suc n) now d && of_tenant tenant d)
          (values ds) no_counts)
        ∙ at_status-no_counts s _,
  ),
  refl,
)
