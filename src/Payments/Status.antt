-- ===== src/Payments/Status.antt =====
-- src/payments/enums/payment-status.enum.ts and the transitions that src/payments/payment-status.service.ts
-- and src/payments/payment-webhook.service.ts allow.
use gestion_alquileres_backe.Prelude.{ℕ, Bool, List, [], ◌∷◌, any, ◌==◌}

pub data PaymentStatus : Type 0 where
  pending processing approved rejected failed refunded reversed disputed : PaymentStatus

abbrev pub payment_status_index : PaymentStatus → ℕ
payment_status_index pending = 0
payment_status_index processing = 1
payment_status_index approved = 2
payment_status_index rejected = 3
payment_status_index failed = 4
payment_status_index refunded = 5
payment_status_index reversed = 6
payment_status_index disputed = 7

abbrev pub payment_status_eq : PaymentStatus → PaymentStatus → Bool
payment_status_eq a b = payment_status_index a == payment_status_index b

-- `ALLOWED_TRANSITIONS`
abbrev pub allowed_transitions : PaymentStatus → List PaymentStatus
allowed_transitions pending = processing ∷ approved ∷ rejected ∷ failed ∷ []
allowed_transitions processing = approved ∷ failed ∷ []
allowed_transitions approved = refunded ∷ reversed ∷ disputed ∷ []
allowed_transitions disputed = approved ∷ reversed ∷ []
allowed_transitions _ = []

-- `isValidPaymentStatusTransition`, of two statuses: the guard of `updatePaymentStatus`, which hands
-- APPROVED to `approvePayment` before it
unfoldable pub is_valid_payment_status_transition : PaymentStatus → PaymentStatus → Bool
is_valid_payment_status_transition from to = any (payment_status_eq to) (allowed_transitions from)

-- `WEBHOOK_TRANSITIONS[status]`: where a status may be reached from
abbrev pub webhook_transitions : PaymentStatus → List PaymentStatus
webhook_transitions processing = pending ∷ []
webhook_transitions approved = pending ∷ processing ∷ disputed ∷ []
webhook_transitions rejected = pending ∷ processing ∷ []
webhook_transitions failed = pending ∷ processing ∷ []
webhook_transitions refunded = approved ∷ []
webhook_transitions reversed = approved ∷ disputed ∷ []
webhook_transitions disputed = approved ∷ []
webhook_transitions _ = []
