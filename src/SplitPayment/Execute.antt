-- ===== src/SplitPayment/Execute.antt =====
-- src/split-payment/split-payment.service.ts, `executeSplit` and what it writes.
use gestion_alquileres_backe.Money.Allocate.{allocate, AllocateError}
use gestion_alquileres_backe.Money.Value.{Money, to_number, of}
use gestion_alquileres_backe.Money.Numeral.{plus, Decimal, round2}
use gestion_alquileres_backe.Prelude.{
  ℕ, suc, ◌+◌, Bool, List, [], ◌∷◌, ◌++◌, map, Option, none, some, ◌==◌, ◌&&◌, Result, ok, err,
  filter_by, if◌then◌else◌,
}
use gestion_alquileres_backe.Transaction.{
  Action, pure, throw, throw_when, select, update, transaction, ◌>>=◌, ◌>>◌,
}
use gestion_alquileres_backe.Money.Decimal.{DecimalLib}
use gestion_alquileres_backe.SplitPayment.{
  SplitCalculation, OwnerRow, OwnerStatement, Tables, ExecuteSplitParams, SplitError, Period,
  extract_period, fetch_maintenance_deductions, no_result, calculate_split, owners_of, allocation,
  is_off_balance, bad_ownership_total, commission_percentage,
}

-- the row of the owner, the property and the period
unfoldable pub is_statement_of : ℕ → ℕ → Period → OwnerStatement → Bool
is_statement_of owner property period s =
    s.rental_owner_id == owner
    && s.property_id == property
    && s.period_month == period.month
    && s.period_year == period.year

-- The amounts of payment_splits and owner_statements stand in columns of two decimals, which round as
-- PostgreSQL does, half away from zero.
module _ ⦃dec : DecimalLib⦄ where
  unfoldable pub accumulate : SplitCalculation → OwnerStatement → OwnerStatement
  accumulate split s = record s {
    gross_rent = round2 (plus s.gross_rent split.gross_rent);
    management_commission = round2 (plus s.management_commission split.commission_amount);
    maintenance_deduction = round2 (plus s.maintenance_deduction split.maintenance_deductions);
    net_amount = round2 (plus s.net_amount split.net_amount);
    payment_count = s.payment_count + 1;
  }

  -- `UPDATE owner_statements SET … WHERE id = $5`
  unfoldable pub accumulate_at : ℕ → SplitCalculation → List OwnerStatement → List OwnerStatement
  accumulate_at id split [] = []
  accumulate_at id split (s ∷ ss) =
      (if s.id == id then accumulate split s else s) ∷ accumulate_at id split ss

  unfoldable pub new_statement :
      ℕ → ExecuteSplitParams → Period → OwnerRow → SplitCalculation → OwnerStatement
  new_statement id p period owner split = record {
    id = id;
    rental_owner_id = owner.rental_owner_id;
    property_id = p.property_id;
    unit_id = p.unit_id;
    period_month = period.month;
    period_year = period.year;
    gross_rent = round2 split.gross_rent;
    management_commission = round2 split.commission_amount;
    maintenance_deduction = round2 split.maintenance_deductions;
    net_amount = round2 split.net_amount;
    currency = p.currency;
    payment_count = 1;
  }

  insert_statement : ExecuteSplitParams → Period → OwnerRow → SplitCalculation → Tables → Tables
  insert_statement p period owner split t = record t {
    owner_statements =
        t.owner_statements ++ (new_statement t.next_statement_id p period owner split ∷ []);
    next_statement_id = suc t.next_statement_id;
  }

  -- the two branches of `upsertOwnerStatement`, on the rows that were found
  unfoldable pub write_statement :
      ExecuteSplitParams
      → Period
      → OwnerRow
      → SplitCalculation
      → List OwnerStatement
      → Action Tables SplitError (Unit {0})
  unfolding insert_statement
  write_statement p period owner split [] = update (insert_statement p period owner split)
  write_statement p period owner split (s ∷ ss) =
      update (λ t. record t { owner_statements = accumulate_at s.id split t.owner_statements })

  -- `upsertOwnerStatement`
  unfoldable pub upsert_owner_statement :
      ExecuteSplitParams
      → Period
      → OwnerRow
      → SplitCalculation
      → Action Tables SplitError (Unit {0})
  upsert_owner_statement p period owner split = do
    existing ← select (λ t.
        filter_by (is_statement_of owner.rental_owner_id p.property_id period) t.owner_statements)
    write_statement p period owner split existing

  unfoldable pub insert_split : ExecuteSplitParams → OwnerRow → SplitCalculation → Tables → Tables
  insert_split p owner split t = record t {
    payment_splits =
        t.payment_splits
        ++ (record {
          payment_id = p.payment_id;
          rental_owner_id = owner.rental_owner_id;
          owner_name = owner.owner_name;
          ownership_pct = owner.ownership_percentage;
          amount = round2 split.gross_rent;
        }
            ∷ []);
  }

  -- what `allocate` throws; `none` stands for a call that does not return
  unfoldable pub from_allocate :
      Option (Result AllocateError (List Money)) → Action Tables SplitError (List Money)
  from_allocate none = throw no_result
  from_allocate (some (err e)) = throw (allocation e)
  from_allocate (some (ok parts)) = pure parts

  -- the loop over the owners, with `grossRents[i]` and `maintenances[i]`
  unfoldable pub split_among :
      ExecuteSplitParams
      → Period
      → Decimal
      → List OwnerRow
      → List Money
      → List Money
      → Action Tables SplitError (Unit {0})
  split_among p period rate (owner ∷ owners) (gross ∷ grosses) (maintenance ∷ maintenances) = do
    let split = calculate_split (to_number gross) rate (to_number maintenance)
    update (insert_split p owner split)
    upsert_owner_statement p period owner split
    split_among p period rate owners grosses maintenances
  split_among p period rate _ _ _ = pure tt

  -- steps 4 to 4b, for the owners that were found
  unfoldable pub split_owners :
      ExecuteSplitParams → Decimal → Decimal → List OwnerRow → Action Tables SplitError (Unit {0})
  split_owners p rate deductions [] = pure tt
  split_owners p rate deductions (o ∷ os) = do
    throw_when (is_off_balance (o ∷ os)) bad_ownership_total
    let ratios = map (λ (x : OwnerRow). x.ownership_percentage) (o ∷ os)
    grosses ← from_allocate (allocate (of p.total_amount p.currency) ratios)
    maintenances ← from_allocate (allocate (of deductions p.currency) ratios)
    split_among p (extract_period p) rate (o ∷ os) grosses maintenances

  -- the body of the `try` block
  unfoldable pub split_body : ExecuteSplitParams → Action Tables SplitError (Unit {0})
  split_body p = do
    configs ← select (λ t. t.tenant_config)
    deductions ← fetch_maintenance_deductions p.property_id (extract_period p)
    owners ← select (owners_of p.property_id)
    split_owners p (commission_percentage configs) deductions owners

  -- `executeSplit`: in a transaction of its own, or within the caller's
  unfoldable pub execute_split : Bool → ExecuteSplitParams → Action Tables SplitError (Unit {0})
  execute_split external p = if external then split_body p else transaction (split_body p)
