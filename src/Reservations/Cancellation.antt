-- ===== src/Reservations/Cancellation.antt =====
-- src/reservations/cancellation-policy.ts: the share of a payment that a cancellation gives back.
-- Times are milliseconds since 1970-01-01.
use gestion_alquileres_backe.Money.Numeral.{
  Decimal, min_of, round2, max_of, cents, minus, to_places, plus, percent_of, whole,
}
use gestion_alquileres_backe.Prelude.Int.{ℤ, leb_ℤ, ◌+ℤ◌, pos}
use gestion_alquileres_backe.Money.Decimal.{DecimalLib}
use gestion_alquileres_backe.Prelude.{ℕ, ◌*◌, Bool, if◌then◌else◌}
pub mod Laws

pub data CancellationPolicy : Type 0 where
  flexible moderate strict non_refundable : CancellationPolicy

pub data RefundReason : Type 0 where
  full_refund partial_refund no_refund_late no_refund_after_checkin no_refund_policy : RefundReason

pub record RefundComputation : Type 0 where
  pub refund_percentage : ℕ
  pub reason : RefundReason

abbrev pub ms_per_day : ℕ
ms_per_day = 1000 * 60 * 60 * 24

module _ ⦃dec : DecimalLib⦄ where
  -- the rent comes first, and its share follows the policy; the deposit is given back whole
  unfoldable pub compute_refundable_amount : ℕ → Decimal → Decimal → Decimal
  compute_refundable_amount policy_pct paid rent_portion =
      let rent_paid = min_of paid rent_portion in
      let deposit_paid = max_of (cents (pos 0)) (minus paid rent_portion) in
      to_places (plus (percent_of rent_paid (whole (pos policy_pct))) deposit_paid) 2

  unfoldable pub compute_deposit_paid : Decimal → Decimal → Decimal
  compute_deposit_paid paid rent_portion = round2 (max_of (cents (pos 0)) (minus paid rent_portion))

-- `days >= n`, for the days from the cancellation to the check-in
abbrev pub is_at_least_days : ℤ → ℤ → ℕ → Bool
is_at_least_days checkin cancellation n = leb_ℤ (cancellation +ℤ pos (n * ms_per_day)) checkin

unfoldable pub refund_by_days : CancellationPolicy → ℤ → ℤ → RefundComputation
refund_by_days flexible checkin cancellation =
    if is_at_least_days checkin cancellation 1
    then record { refund_percentage = 100; reason = full_refund }
    else record { refund_percentage = 0; reason = no_refund_late }
refund_by_days moderate checkin cancellation =
    if is_at_least_days checkin cancellation 5
    then record { refund_percentage = 100; reason = full_refund }
    else if is_at_least_days checkin cancellation 1
    then record { refund_percentage = 50; reason = partial_refund }
    else record { refund_percentage = 0; reason = no_refund_late }
refund_by_days strict checkin cancellation =
    if is_at_least_days checkin cancellation 7
    then record { refund_percentage = 50; reason = partial_refund }
    else record { refund_percentage = 0; reason = no_refund_late }
refund_by_days non_refundable checkin cancellation = record {
  refund_percentage = 0;
  reason = no_refund_policy;
}

unfoldable pub compute_cancellation_refund : CancellationPolicy → ℤ → ℤ → RefundComputation
unfolding refund_by_days
compute_cancellation_refund non_refundable checkin cancellation = record {
  refund_percentage = 0;
  reason = no_refund_policy;
}
compute_cancellation_refund policy checkin cancellation =
    if leb_ℤ checkin cancellation
    then record { refund_percentage = 0; reason = no_refund_after_checkin }
    else refund_by_days policy checkin cancellation
