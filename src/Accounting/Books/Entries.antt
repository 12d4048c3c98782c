-- ===== src/Accounting/Books/Entries.antt =====
-- The entries that the posting services of src/accounting write, as functions of the rows they read.
use gestion_alquileres_backe.Accounting.Books.{rent, deposit, late_fee, partially_paid}
use gestion_alquileres_backe.Money.Numeral.{cents}
use gestion_alquileres_backe.Accounting.Reversal.{to_text}
use gestion_alquileres_backe.Prelude.Int.{ℤ, ltb_ℤ, pos}
use gestion_alquileres_backe.Accounting.Books.{
  PaymentType, BookedPayment, BookedRefund, ExpensePaymentStatus, BookedExpense,
  BookedExpensePayment, BookedStatement, unpaid, paid_expense, utility, hoa_fee, pet_fee,
  reimbursed, parking_fee, application_fee, maintenance_fee, other_type,
}
use gestion_alquileres_backe.Accounting.Tables.{
  References, JsonValue, JournalLineInput, PostJournalEntryInput, Json, json_null, json_number,
  json_text, cash, accrual,
}
use gestion_alquileres_backe.Prelude.{
  Option, take, some, ℕ, none, List, if◌then◌else◌, Bool, ◌++◌, any, ◌∷◌, true, [], false, ltb,
}
use gestion_alquileres_backe.Money.Currency.{Code, codes, code_eq}

-- `toDateOnly`
abbrev to_date_only : Code → Code
to_date_only value = take 10 value

-- `value ?? other`
abbrev or_text : Option Code → Code → Code
or_text none other = other
or_text (some text) other = text

abbrev json_or_null : Option ℕ → JsonValue
json_or_null none = json_null
json_or_null (some n) = json_number n

abbrev text_or_null : Option Code → JsonValue
text_or_null none = json_null
text_or_null (some text) = json_text text

abbrev pub debit_line : Code → ℤ → References → Code → JournalLineInput
debit_line code amount about memo = record {
  account_code = code;
  debit = some (cents amount);
  credit = none;
  references = about;
  memo = some memo;
}

abbrev pub credit_line : Code → ℤ → References → Code → JournalLineInput
credit_line code amount about memo = record {
  account_code = code;
  debit = none;
  credit = some (cents amount);
  references = about;
  memo = some memo;
}

abbrev no_references : References
no_references = record {
  property_id = none;
  unit_id = none;
  owner_id = none;
  tenant_user_id = none;
  vendor_id = none;
  contract_id = none;
  payment_id = none;
  expense_id = none;
}

-- the text of a payment's type
unfoldable payment_type_text : PaymentType → Code
payment_type_text rent = codes "RENT"
payment_type_text deposit = codes "DEPOSIT"
payment_type_text late_fee = codes "LATE_FEE"
payment_type_text utility = codes "UTILITY"
payment_type_text hoa_fee = codes "HOA_FEE"
payment_type_text pet_fee = codes "PET_FEE"
payment_type_text parking_fee = codes "PARKING_FEE"
payment_type_text application_fee = codes "APPLICATION_FEE"
payment_type_text maintenance_fee = codes "MAINTENANCE_FEE"
payment_type_text other_type = codes "OTHER"

-- `incomeAccountForPaymentType`, and `offsetAccountForPaymentType` of refunds
unfoldable pub income_account : PaymentType → Code
income_account rent = codes "4000"
income_account late_fee = codes "4100"
income_account deposit = codes "2200"
income_account _ = codes "4300"

-- the entry of `postApprovedPayment`
unfoldable pub payment_entry : BookedPayment → PostJournalEntryInput
unfolding payment_type_text
payment_entry p =
    let about = record no_references {
      property_id = some p.property_id;
      contract_id = p.contract_id;
      payment_id = some p.id;
    } in
    record {
      entry_date = to_date_only p.payment_date;
      description = codes "Posteo de pago aprobado #" ++ to_text p.id;
      source_module = some (codes "payments");
      source_id = some (to_text p.id);
      basis = some cash;
      metadata = some (
          (codes "paymentId", json_number p.id)
          ∷ (codes "paymentType", json_text (payment_type_text p.payment_type))
          ∷ (codes "contractId", json_or_null p.contract_id)
          ∷ (codes "reservationId", json_or_null p.reservation_id)
          ∷ []);
      lines =
          debit_line (codes "1100") p.amount about (codes "Cobro recibido")
          ∷ credit_line (income_account p.payment_type) p.amount about
              (codes "Ingreso por " ++ payment_type_text p.payment_type)
          ∷ [];
    }

-- the entry of `postPaymentRefund`, of the refund and its payment
unfoldable pub refund_entry : BookedRefund → BookedPayment → PostJournalEntryInput
unfolding payment_type_text
refund_entry r p =
    let about = record no_references {
      property_id = some p.property_id;
      contract_id = p.contract_id;
      payment_id = some r.payment_id;
    } in
    record {
      entry_date = to_date_only r.refund_date;
      description = codes "Posteo de reembolso #" ++ to_text r.id;
      source_module = some (codes "payment_refunds");
      source_id = some (to_text r.id);
      basis = some cash;
      metadata = some (
          (codes "refundId", json_number r.id)
          ∷ (codes "paymentId", json_number r.payment_id)
          ∷ (codes "paymentType", json_text (payment_type_text p.payment_type))
          ∷ []);
      lines =
          debit_line (income_account p.payment_type) r.amount about
            (codes "Reembolso de " ++ payment_type_text p.payment_type)
          ∷ credit_line (codes "1100") r.amount about (codes "Salida por reembolso")
          ∷ [];
    }

abbrev pub one_of : Code → List Code → Bool
one_of text names = any (code_eq text) names

-- `expenseAccountForCategory`
unfoldable pub expense_account : Code → Code
expense_account category =
    if one_of category (codes "MAINTENANCE" ∷ codes "REPAIRS" ∷ [])
    then codes "5200"
    else if one_of category (codes "CLEANING" ∷ codes "LAUNDRY" ∷ codes "SUPPLIES" ∷ [])
    then codes "5300"
    else if one_of category (codes "INSURANCE" ∷ codes "TAX" ∷ codes "LEGAL" ∷ [])
    then codes "5400"
    else codes "5000"

-- the text of an expense's payment status
unfoldable expense_status_text : ExpensePaymentStatus → Code
expense_status_text unpaid = codes "PENDING"
expense_status_text paid_expense = codes "PAID"
expense_status_text partially_paid = codes "PARTIALLY_PAID"
expense_status_text reimbursed = codes "REIMBURSED"

-- `payment_status === 'PENDING'`
abbrev pub is_unpaid : ExpensePaymentStatus → Bool
is_unpaid unpaid = true
is_unpaid _ = false

abbrev about_expense : BookedExpense → References
about_expense e = record no_references {
  property_id = some e.property_id;
  unit_id = e.unit_id;
  vendor_id = e.vendor_id;
  expense_id = some e.id;
}

abbrev expense_metadata : BookedExpense → Code → Json
expense_metadata e status =
    (codes "expenseId", json_number e.id)
    ∷ (codes "category", json_text e.category)
    ∷ (codes "paymentStatus", json_text status)
    ∷ []

-- the entry of `postExpense`
unfoldable pub expense_entry : BookedExpense → PostJournalEntryInput
unfolding expense_status_text
expense_entry e =
    let due = is_unpaid e.payment_status in
    record {
      entry_date = to_date_only e.date;
      description =
          (if due then codes "Registro de gasto pendiente #" else codes "Posteo de gasto pagado #")
          ++ to_text e.id;
      source_module = some (codes "expenses");
      source_id = some (to_text e.id);
      basis = some (if due then accrual else cash);
      metadata = some (expense_metadata e (expense_status_text e.payment_status));
      lines =
          debit_line (expense_account e.category) e.amount (about_expense e)
            (or_text e.description (codes "Gasto " ++ e.category))
          ∷ credit_line (if due then codes "2300" else codes "1100") e.amount (about_expense e)
              (if due then codes "Cuenta por pagar a proveedor" else codes "Salida de caja/banco")
          ∷ [];
    }

-- the entry of `postExpensePayment`
unfoldable pub expense_payment_entry : BookedExpense → PostJournalEntryInput
unfolding expense_status_text
expense_payment_entry e = record {
  entry_date = to_date_only (or_text e.paid_date e.date);
  description = codes "Pago de gasto pendiente #" ++ to_text e.id;
  source_module = some (codes "expense-payments");
  source_id = some (to_text e.id);
  basis = some cash;
  metadata = some (expense_metadata e (expense_status_text e.payment_status));
  lines =
      debit_line (codes "2300") e.amount (about_expense e) (codes "Cancelacion de cuenta por pagar")
      ∷ credit_line (codes "1100") e.amount (about_expense e) (codes "Salida de caja/banco")
      ∷ [];
}

-- the entry of `postExpenseVendorPayment`, of the payment and its expense
unfoldable pub vendor_payment_entry : BookedExpensePayment → BookedExpense → PostJournalEntryInput
vendor_payment_entry p e =
    let about = record (about_expense e) { expense_id = some p.expense_id } in
    record {
      entry_date = to_date_only p.payment_date;
      description = codes "Pago de proveedor para gasto #" ++ to_text p.expense_id;
      source_module = some (codes "expense-payments");
      source_id = some (to_text p.id);
      basis = some cash;
      metadata = some (
          (codes "expenseId", json_number p.expense_id)
          ∷ (codes "expensePaymentId", json_number p.id)
          ∷ (codes "category", json_text e.category)
          ∷ (codes "paymentMethod", text_or_null p.payment_method)
          ∷ (codes "referenceNumber", text_or_null p.reference_number)
          ∷ []);
      lines =
          debit_line (codes "2300") p.amount about
            (or_text p.notes (codes "Abono a cuenta por pagar"))
          ∷ credit_line (codes "1100") p.amount about (codes "Salida de caja/banco")
          ∷ [];
    }

abbrev about_statement : BookedStatement → References
about_statement s = record no_references {
  property_id = some s.property_id;
  unit_id = s.unit_id;
  owner_id = some s.rental_owner_id;
}

-- `if (amount > 0) lines.push(…)`
abbrev pub line_if : ℤ → JournalLineInput → List JournalLineInput → List JournalLineInput
line_if amount line rest = if ltb_ℤ (pos 0) amount then line ∷ rest else rest

-- `statementPeriodDate`
abbrev statement_period_date : BookedStatement → Code
statement_period_date s =
    to_text s.period_year
    ++ codes "-"
    ++ (if ltb s.period_month 10 then codes "0" else [])
    ++ to_text s.period_month
    ++ codes "-01"

-- the entry of `postGeneratedStatement`
unfoldable pub statement_entry : BookedStatement → PostJournalEntryInput
statement_entry s =
    let about = about_statement s in
    record {
      entry_date = statement_period_date s;
      description = codes "Posteo de liquidacion propietario #" ++ to_text s.id;
      source_module = some (codes "owner_statements");
      source_id = some (codes "generated:" ++ to_text s.id);
      basis = some cash;
      metadata = some ((codes "ownerStatementId", json_number s.id) ∷ []);
      lines =
          debit_line (codes "4000") s.gross_rent about
            (codes "Reclasificacion de renta para liquidacion propietario")
          ∷ line_if s.management_commission
              (credit_line (codes "4200") s.management_commission about
                (codes "Comision de administracion"))
              (line_if s.net_amount
                (credit_line (codes "2100") s.net_amount about (codes "Por pagar a propietario"))
                (line_if s.maintenance_deduction
                  (credit_line (codes "5200") s.maintenance_deduction about
                    (codes "Recupero de mantenimiento deducido al propietario"))
                  []));
    }

-- the entry of `postStatementTransfer`, on the day `today`
unfoldable pub transfer_entry : Code → BookedStatement → PostJournalEntryInput
transfer_entry today s =
    let about = about_statement s in
    record {
      entry_date = today;
      description = codes "Transferencia a propietario statement #" ++ to_text s.id;
      source_module = some (codes "owner_statement_transfers");
      source_id = some (to_text s.id);
      basis = some cash;
      metadata = some ((codes "ownerStatementId", json_number s.id) ∷ []);
      lines =
          debit_line (codes "2100") s.net_amount about (codes "Pago de saldo a propietario")
          ∷ credit_line (codes "1100") s.net_amount about
              (codes "Salida de caja/banco a propietario")
          ∷ [];
    }
