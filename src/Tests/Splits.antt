-- ===== src/Tests/Splits.antt =====
-- Runs of src/split-payment/split-payment.service.ts: a property with two owners, 60 % and 40 %.
use gestion_alquileres_backe.Transaction.{thrown}
use gestion_alquileres_backe.SplitPayment.Atomicity.{execute_split_refuses}
use gestion_alquileres_backe.SplitPayment.Calculation.{calculate_split_adds_up}
use gestion_alquileres_backe.Money.Currency.{codes}
use gestion_alquileres_backe.Money.Decimal.{exact_decimals, round_div}
use gestion_alquileres_backe.Money.Numeral.{cents, to_places, round2}
use gestion_alquileres_backe.Transaction.{Session, Failure}
use gestion_alquileres_backe.SplitPayment.Execute.{execute_split}
use gestion_alquileres_backe.SplitPayment.Statements.{HasUniqueStatements, execute_split_unique}
use gestion_alquileres_backe.Prelude.Int.{◌-ℤ◌, sum_ℤ, ℤ, ◌+ℤ◌, pos, ◌*ℤ◌}
use gestion_alquileres_backe.SplitPayment.{
  Tables, ExecuteSplitParams, calculate_split, owners_of, OwnerRow, SplitError, is_off_balance,
  bad_ownership_total,
}
use gestion_alquileres_backe.Prelude.{
  ℕ, List, Bool, false, ◌≡◌, true, some, ◌∷◌, ◌≤◌, Result, [], none, arith, err, refl,
}

abbrev owner : ℕ → ℤ → OwnerRow
owner id share = record {
  property_id = 1;
  rental_owner_id = id;
  owner_name = codes "Ana";
  ownership_percentage = share;
}

abbrev owned_by : List OwnerRow → Tables
owned_by owners = record {
  tenant_config = some (cents (pos 1000)) ∷ [];
  has_estimated_cost = true;
  maintenance_requests = [];
  property_owners = owners;
  payment_splits = [];
  owner_statements = [];
  next_statement_id = 1;
}

abbrev both_owners : List OwnerRow
both_owners = owner 7 (pos 60) ∷ owner 8 (pos 40) ∷ []

abbrev session : Tables → Session Tables
session t = record { store = t; queries = 0; fails = λ n. false }

abbrev rent : ExecuteSplitParams
rent = record {
  payment_id = 5;
  total_amount = cents (pos 100001);
  property_id = 1;
  payment_month = 4;
  payment_year = 2026;
  currency = codes "BOB";
  unit_id = none;
}

calculate_split_adds_up_example :
    let split =
      calculate_split ⦃dec = exact_decimals⦄
        (cents (pos 100001))
        (cents (pos 1000))
        (cents (pos 2500)) in
    (commission : ℕ) × (net : ℤ) × (split.commission_amount ≡ cents (pos commission))
    × (split.net_amount ≡ cents net)
    × (commission ≤ 100001)
    × (pos commission +ℤ pos 2500 +ℤ net ≡ pos 100001)
calculate_split_adds_up_example =
    calculate_split_adds_up ⦃dec = exact_decimals⦄ 100001 1000 2500 (omega arith)

abbrev split_now : Bool → Session Tables → Result (Failure SplitError) (Unit {0}) × Session Tables
split_now external s = execute_split ⦃dec = exact_decimals⦄ external rent s

execute_split_unique_example :
    HasUniqueStatements (split_now true (session (owned_by both_owners))).1.store
execute_split_unique_example =
    execute_split_unique ⦃dec = exact_decimals⦄ true rent (session (owned_by both_owners)) tt

alone_found : owners_of 1 (owned_by (owner 7 (pos 60) ∷ [])) ≡ owner 7 (pos 60) ∷ []
unfolding owners_of
alone_found = refl

alone_off : is_off_balance (owner 7 (pos 60) ∷ []) ≡ true
unfolding is_off_balance ◌-ℤ◌ sum_ℤ ◌+ℤ◌
alone_off = refl

execute_split_refuses_example :
    ((split_now true (session (owned_by (owner 7 (pos 60) ∷ [])))).0
      ≡ err (thrown bad_ownership_total))
    × ((split_now true (session (owned_by (owner 7 (pos 60) ∷ [])))).1.store
        ≡ owned_by (owner 7 (pos 60) ∷ []))
execute_split_refuses_example =
    execute_split_refuses ⦃dec = exact_decimals⦄ true rent
      (session (owned_by (owner 7 (pos 60) ∷ []))) (owner 7 (pos 60)) [] (λ n. refl) alone_found
      alone_off

-- A part of 33.003 dinars, whose currency has three decimals, is stored as 33.00.
third_decimal :
    round2 ⦃dec = exact_decimals⦄ (record { units = pos 33003; places = 3 }) ≡ cents (pos 3300)
unfolding to_places round_div ◌*ℤ◌
third_decimal = refl
