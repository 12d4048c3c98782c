-- ===== src/SplitPayment/Statements.antt =====
-- The owner's statements: one for each owner, property and month, whatever payments are split and
-- whichever queries fail.
use gestion_alquileres_backe.Prelude.Int.{pos}
use gestion_alquileres_backe.Money.Allocate.{AllocateError}
use gestion_alquileres_backe.Money.Numeral.{Decimal, cents}
use gestion_alquileres_backe.Money.Decimal.{DecimalLib}
use gestion_alquileres_backe.Money.Value.{Money}
use gestion_alquileres_backe.Transaction.{Session, select, pure}
use gestion_alquileres_backe.Prelude.{
  ℕ, ◌≡◌, refl, Bool, true, false, ◌||◌, List, [], ◌∷◌, ◌++◌, any, arith, filter_by, Bool-cases,
  ◌==◌, inl, ap, ◌∙◌, inr, Option, if◌then◌else◌, Result, some, err, ok, none,
}
use gestion_alquileres_backe.SplitPayment.{
  OwnerStatement, Tables, Period, SplitCalculation, OwnerRow, ExecuteSplitParams, SplitError,
  fetch_maintenance_deductions, commission_percentage, maintenance_total, no_result, allocation,
}
use gestion_alquileres_backe.SplitPayment.Execute.{
  is_statement_of, accumulate, accumulate_at, new_statement, upsert_owner_statement, execute_split,
  split_body, split_among, write_statement, from_allocate, split_owners, insert_split,
}
use gestion_alquileres_backe.Transaction.Rules.{
  Keeps, EndsIn, select->>=-Keeps, update-EndsIn, >>=-Keeps, transaction-Keeps, pure-Keeps,
  select-Keeps, >>-Keeps, update-Keeps, throw_when-Keeps, throw-Keeps,
}

abbrev pub period_of : OwnerStatement → Period
period_of s = record { month = s.period_month; year = s.period_year }

abbrev pub has_statement : ℕ → ℕ → Period → List OwnerStatement → Bool
has_statement owner property period = any (is_statement_of owner property period)

-- No two rows stand for one owner, property and period.
abbrev pub AreUnique : List OwnerStatement → Type 0
AreUnique [] = Unit {0}
AreUnique (s ∷ ss) =
    (has_statement s.rental_owner_id s.property_id (period_of s) ss ≡ false) × AreUnique ss

abbrev pub HasUniqueStatements : Tables → Type 0
HasUniqueStatements t = AreUnique t.owner_statements

module _ ⦃dec : DecimalLib⦄ where
  has_statement-accumulate_at :
      (owner property : ℕ) (period : Period) (id : ℕ) (split : SplitCalculation)
      (ss : List OwnerStatement)
      → has_statement owner property period (accumulate_at id split ss)
        ≡ has_statement owner property period ss
  unfolding accumulate_at accumulate is_statement_of
  has_statement-accumulate_at owner property period id split [] = refl
  has_statement-accumulate_at owner property period id split (s ∷ ss) =
      elim (Bool-cases (s.id == id)) [
        | inl e ↦ rw e (
            ap (λ b. is_statement_of owner property period s || b)
              (has_statement-accumulate_at owner property period id split ss))
        | inr e ↦ rw e (
            ap (λ b. is_statement_of owner property period s || b)
              (has_statement-accumulate_at owner property period id split ss))
      ]

  accumulate_at-AreUnique :
      (id : ℕ) (split : SplitCalculation) (ss : List OwnerStatement)
      → AreUnique ss
      → AreUnique (accumulate_at id split ss)
  unfolding accumulate_at accumulate
  accumulate_at-AreUnique id split [] h = tt
  accumulate_at-AreUnique id split (s ∷ ss) h =
      let same =
        has_statement-accumulate_at s.rental_owner_id s.property_id (period_of s) id split ss in
      elim (Bool-cases (s.id == id)) [
        | inl e ↦ rw e (same ∙ h.0, accumulate_at-AreUnique id split ss h.1)
        | inr e ↦ rw e (same ∙ h.0, accumulate_at-AreUnique id split ss h.1)
      ]

  is_statement_of_sym :
      (s n : OwnerStatement)
      → is_statement_of n.rental_owner_id n.property_id (period_of n) s ≡ false
      → is_statement_of s.rental_owner_id s.property_id (period_of s) n ≡ false
  unfolding is_statement_of
  is_statement_of_sym s n h = ground arith

  has_statement-append :
      (owner property : ℕ) (period : Period) (ss : List OwnerStatement) (n : OwnerStatement)
      → has_statement owner property period ss ≡ false
      → is_statement_of owner property period n ≡ false
      → has_statement owner property period (ss ++ (n ∷ [])) ≡ false
  has_statement-append owner property period [] n h k = rw k
  has_statement-append owner property period (s ∷ ss) n h k =
      ground (arith, has_statement-append owner property period ss n)

  append-AreUnique :
      (ss : List OwnerStatement) (n : OwnerStatement)
      → has_statement n.rental_owner_id n.property_id (period_of n) ss ≡ false
      → AreUnique ss
      → AreUnique (ss ++ (n ∷ []))
  append-AreUnique [] n h u = (refl, tt)
  append-AreUnique (s ∷ ss) n h u = (
    has_statement-append s.rental_owner_id s.property_id (period_of s) ss n u.0
        (is_statement_of_sym s n (ground arith)),
    append-AreUnique ss n (ground arith) u.1,
  )

  filter_by-nil : {A : Type 0} (p : A → Bool) (xs : List A) → filter_by p xs ≡ [] → any p xs ≡ false
  filter_by-nil p [] h = refl
  filter_by-nil p (x ∷ xs) h = ground (arith, filter_by-nil p xs)

  upsert-EndsIn :
      (p : ExecuteSplitParams) (period : Period) (owner : OwnerRow) (split : SplitCalculation)
      (t : Tables)
      → HasUniqueStatements t
      → (existing : List OwnerStatement)
      → filter_by (is_statement_of owner.rental_owner_id p.property_id period) t.owner_statements
        ≡ existing
      → EndsIn t (write_statement p period owner split existing) HasUniqueStatements
  unfolding write_statement new_statement
  upsert-EndsIn p period owner split t h [] e = update-EndsIn _ t h (
      append-AreUnique t.owner_statements (new_statement t.next_statement_id p period owner split)
        (filter_by-nil _ t.owner_statements e) h)
  upsert-EndsIn p period owner split t h (s ∷ ss) e =
      update-EndsIn _ t h (accumulate_at-AreUnique s.id split t.owner_statements h)

  upsert-Keeps :
      (p : ExecuteSplitParams) (period : Period) (owner : OwnerRow) (split : SplitCalculation)
      → Keeps HasUniqueStatements (upsert_owner_statement p period owner split)
  unfolding upsert_owner_statement
  upsert-Keeps p period owner split =
      select->>=-Keeps _ _ (λ t h. upsert-EndsIn p period owner split t h _ refl)

  split_among-Keeps :
      (p : ExecuteSplitParams) (period : Period) (rate : Decimal) (owners : List OwnerRow)
      (grosses maintenances : List Money)
      → Keeps HasUniqueStatements (split_among p period rate owners grosses maintenances)
  unfolding split_among insert_split
  split_among-Keeps p period rate [] grosses maintenances = pure-Keeps tt
  split_among-Keeps p period rate (owner ∷ owners) [] maintenances = pure-Keeps tt
  split_among-Keeps p period rate (owner ∷ owners) (gross ∷ grosses) [] = pure-Keeps tt
  split_among-Keeps p period rate (owner ∷ owners) (gross ∷ grosses) (m ∷ ms) =
      >>-Keeps (update-Keeps _ (λ t h. h)) (
        >>-Keeps (upsert-Keeps p period owner _)
          (split_among-Keeps p period rate owners grosses ms))

  from_allocate-Keeps :
      (res : Option (Result AllocateError (List Money)))
      → Keeps HasUniqueStatements (from_allocate res)
  unfolding from_allocate
  from_allocate-Keeps none = throw-Keeps no_result
  from_allocate-Keeps (some (err e)) = throw-Keeps (allocation e)
  from_allocate-Keeps (some (ok parts)) = pure-Keeps parts

  fetch-Keeps :
      (property : ℕ) (period : Period)
      → Keeps HasUniqueStatements (fetch_maintenance_deductions property period)
  unfolding fetch_maintenance_deductions
  fetch-Keeps property period = >>=-Keeps (select-Keeps _) (λ b. either b)
    where
      either :
          (b : Bool)
          → Keeps {E = SplitError} HasUniqueStatements
              (if b then select (maintenance_total property period) else pure (cents (pos 0)))
      either true = select-Keeps _
      either false = pure-Keeps _

  split_owners-Keeps :
      (p : ExecuteSplitParams) (rate deductions : Decimal) (owners : List OwnerRow)
      → Keeps HasUniqueStatements (split_owners p rate deductions owners)
  unfolding split_owners
  split_owners-Keeps p rate deductions [] = pure-Keeps tt
  split_owners-Keeps p rate deductions (o ∷ os) = >>-Keeps (throw_when-Keeps _ _) (
      >>=-Keeps (from_allocate-Keeps _) (λ grosses.
        >>=-Keeps (from_allocate-Keeps _)
          (λ maintenances. split_among-Keeps p _ rate (o ∷ os) grosses maintenances)))

  split_body-Keeps : (p : ExecuteSplitParams) → Keeps HasUniqueStatements (split_body p)
  unfolding split_body
  split_body-Keeps p = >>=-Keeps (select-Keeps _) (λ configs.
      >>=-Keeps (fetch-Keeps p.property_id _) (λ deductions.
        >>=-Keeps (select-Keeps _)
          (λ owners. split_owners-Keeps p (commission_percentage configs) deductions owners)))

  execute_split-Keeps :
      (external : Bool) (p : ExecuteSplitParams)
      → Keeps HasUniqueStatements (execute_split external p)
  unfolding execute_split
  execute_split-Keeps true p = split_body-Keeps p
  execute_split-Keeps false p = transaction-Keeps (split_body-Keeps p)

  -- `executeSplit` keeps one statement for each owner, property and month, in a transaction of its
  -- own or in the caller's, on every outcome: also after an exception or a query that fails.
  pub execute_split_unique :
      (external : Bool) (p : ExecuteSplitParams) (s : Session Tables)
      → HasUniqueStatements s.store
      → HasUniqueStatements (execute_split external p s).1.store
  execute_split_unique external p = (execute_split-Keeps external p).keep
