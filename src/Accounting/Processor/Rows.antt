-- ===== src/Accounting/Processor/Rows.antt =====
-- What a run of src/accounting/accounting-outbox.processor.ts does to the rows of one event, `target`.
use mathlib.Core.Path.{subst}
use mathlib.Core.Bool.{true≢false}
use Prim.Native.Nat.{zero}
use gestion_alquileres_backe.Payments.Outbox.{posted, OutboxStatus}
use gestion_alquileres_backe.Accounting.Processor.{
  OutboxRow, is_queued, change_row, is_reached, claim_due, is_due, claimed,
}
use gestion_alquileres_backe.Prelude.{
  ℕ, ◌≡◌, Bool, List, ◌==◌, ◌≢◌, ◌⊎◌, All, map, true, ◌∷◌, Bool-cases, inl, inr, [], false, sym,
  arith, ==_iff, ◌∙◌, any, length, suc, ◌≤◌, zero, ap, refl, ◌||◌, ◌&&◌,
}

-- the row is posted, if it is the event's
abbrev pub PostedRow : ℕ → OutboxRow → Type 0
PostedRow target row = row.id ≡ target → row.status ≡ posted

-- the row is posted, or it waits for a retry no later than `deadline` and is as `Own` says, if it is
-- the event's
abbrev pub WaitingRow : ℕ → (OutboxRow → Type 0) → ℕ → OutboxRow → Type 0
WaitingRow target Own deadline row =
    row.id ≡ target
    → (row.status ≡ posted)
      ⊎ ((is_queued row.status ≡ true) × (is_reached deadline row.next_retry_at ≡ true) × Own row)

-- the row is posted or as `Own` says, if it is the event's
abbrev pub KnownRow : ℕ → (OutboxRow → Type 0) → OutboxRow → Type 0
KnownRow target Own row = row.id ≡ target → (row.status ≡ posted) ⊎ Own row

-- a change of one row: it keeps the number
abbrev pub KeepsId : (OutboxRow → OutboxRow) → Type 0
KeepsId f = (row : OutboxRow) → (f row).id ≡ row.id

abbrev pub is_row_of : ℕ → OutboxRow → Bool
is_row_of target row = row.id == target

pub same_number : (a b : ℕ) → a ≡ b → (a == b) ≢ false
same_number a b e h = ground (arith, e, h)

module _ (target : ℕ) where
  -- Every row of the event is posted by a change of them that posts.
  pub all_posted :
      (f : OutboxRow → OutboxRow) (rows : List OutboxRow)
      → ((row : OutboxRow) → (f row).status ≡ posted)
      → All (PostedRow target) (map (change_row target f) rows)
  all_posted f [] h = tt
  all_posted f (row ∷ rows) h = (first, all_posted f rows h)
    where
      first : PostedRow target (change_row target f row)
      first = elim (Bool-cases (row.id == target)) [
        | inl own ↦ rw own (λ e. h row)
        | inr other ↦ rw other (λ e. absurd (same_number row.id target e other))
      ]

  -- A change of another event's rows leaves them as they are.
  pub others_kept {κ} :
      (P : OutboxRow → Type κ) (id : ℕ) (f : OutboxRow → OutboxRow) (rows : List OutboxRow)
      → id ≢ target
      → KeepsId f
      → All (λ row. row.id ≡ target → P row) rows
      → All (λ row. row.id ≡ target → P row) (map (change_row id f) rows)
  others_kept P id f [] apart same h = tt
  others_kept P id f (row ∷ rows) apart same (p, h) = (first, others_kept P id f rows apart same h)
    where
      first : (change_row id f row).id ≡ target → P (change_row id f row)
      first = elim (Bool-cases (row.id == id)) [
        | inl changed ↦
            rw changed
              (λ e. absurd (apart (sym ((==_iff row.id id).0 changed) ∙ sym (same row) ∙ e)))
        | inr kept ↦ rw kept p
      ]

-- the row is posted, or it waits and is not due yet
abbrev pub IsIdle : (OutboxRow → Type 0) → ℕ → ℕ → OutboxRow → Type 0
IsIdle Own now deadline row =
    (row.status ≡ posted)
    ⊎ ((is_queued row.status ≡ true)
        × (is_reached deadline row.next_retry_at ≡ true)
        × (is_due now row ≡ false)
        × Own row)

or_true : (a b : Bool) → b ≡ true → a || b ≡ true
or_true a b h = ground arith

-- a posted row is not due
not_due : (status : OutboxStatus) (b : Bool) → status ≡ posted → is_queued status && b ≢ true
not_due status b e h = true≢false (sym (subst (λ x. is_queued x && b ≡ true) e h))

module _ (target : ℕ) (Own : OutboxRow → Type 0) where
  -- What is claimed of the event is as `Own` says.
  pub claimed_own :
      (now limit : ℕ) (rows : List OutboxRow)
      → ((row : OutboxRow) → Own row → Own (claimed row))
      → All (KnownRow target Own) rows
      → All (λ row. row.id ≡ target → Own row) (claim_due now limit rows).0
  unfolding claim_due
  claimed_own now zero rows same h = tt
  claimed_own now (suc limit) [] same h = tt
  claimed_own now (suc limit) (row ∷ rows) same (k, h) = elim (Bool-cases (is_due now row)) [
    | inl due ↦ rw due ((λ own. taken due (k own)), claimed_own now limit rows same h)
    | inr waits ↦ rw waits (claimed_own now (suc limit) rows same h)
  ]
    where
      taken : is_due now row ≡ true → (row.status ≡ posted) ⊎ Own row → Own (claimed row)
      taken due (inl done) = absurd (not_due row.status _ done due)
      taken due (inr o) = same row o

  -- A claim that has room takes a due row of the event, or there is none.
  pub claim_cases :
      (now limit deadline : ℕ) (rows : List OutboxRow)
      → length rows ≤ limit
      → All (WaitingRow target Own deadline) rows
      → (any (is_row_of target) (claim_due now limit rows).0 ≡ true)
        ⊎ All (λ row. row.id ≡ target → IsIdle Own now deadline row) (claim_due now limit rows).1
  unfolding claim_due
  claim_cases now zero deadline [] bound h = inr tt
  claim_cases now zero deadline (row ∷ rows) bound h = elim bound [ ]
  claim_cases now (suc limit) deadline [] bound h = inr tt
  claim_cases now (suc limit) deadline (row ∷ rows) bound (w, h) =
      elim (Bool-cases (is_due now row)) [
        | inl due ↦ rw due (elim (Bool-cases (row.id == target)) [
          | inl own ↦ inl (rw own refl)
          | inr other ↦ elim (claim_cases now limit deadline rows (omega arith) h) [
            | inl taken ↦ inl (or_true (row.id == target) _ taken)
            | inr idle ↦ inr ((λ own. absurd (same_number row.id target own other)), idle)
          ]
        ])
        | inr waits ↦
            let first : row.id ≡ target → IsIdle Own now deadline row =
              λ own. elim (w own) [ inl done ↦ inl done | inr q ↦ inr (q.0, q.1, waits, q.2) ] in
            rw waits (elim (claim_cases now (suc limit) deadline rows (omega arith) h) [
              | inl taken ↦ inl taken
              | inr idle ↦ inr (first, idle)
            ])
      ]

module _ (target : ℕ) where
  -- posted rows are not claimed
  pub claim_keeps_posted :
      (now limit : ℕ) (rows : List OutboxRow)
      → All (PostedRow target) rows
      → All (PostedRow target) (claim_due now limit rows).1
  unfolding claim_due
  claim_keeps_posted now zero rows h = h
  claim_keeps_posted now (suc limit) [] h = tt
  claim_keeps_posted now (suc limit) (row ∷ rows) (p, h) = elim (Bool-cases (is_due now row)) [
    | inl due ↦
        rw due
          ((λ own. absurd (not_due row.status _ (p own) due)), claim_keeps_posted now limit rows h)
    | inr waits ↦ rw waits (p, claim_keeps_posted now (suc limit) rows h)
  ]

pub length-claim_due :
    (now limit : ℕ) (rows : List OutboxRow) → length (claim_due now limit rows).1 ≡ length rows
unfolding claim_due
length-claim_due now zero rows = refl
length-claim_due now (suc limit) [] = refl
length-claim_due now (suc limit) (row ∷ rows) = elim (Bool-cases (is_due now row)) [
  | inl due ↦ rw due (ap suc (length-claim_due now limit rows))
  | inr waits ↦ rw waits (ap suc (length-claim_due now (suc limit) rows))
]
