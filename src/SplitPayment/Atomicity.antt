-- ===== src/SplitPayment/Atomicity.antt =====
-- What `executeSplit` refuses.
use gestion_alquileres_backe.Transaction.Commit.{
  transaction-rolls_back-Yields, throw_when->>-Yields,
}
use gestion_alquileres_backe.SplitPayment.Conservation.{fetch-Yields}
use gestion_alquileres_backe.Transaction.Rules.{NoFaults, Yields, >>=-Yields, select-Yields}
use gestion_alquileres_backe.Transaction.{Session, thrown}
use gestion_alquileres_backe.SplitPayment.{
  ExecuteSplitParams, Tables, OwnerRow, owners_of, is_off_balance, bad_ownership_total,
  extract_period,
}
use gestion_alquileres_backe.Money.Decimal.{DecimalLib}
use gestion_alquileres_backe.SplitPayment.Execute.{execute_split, split_body, split_owners}
use gestion_alquileres_backe.Prelude.{false, ◌≡◌, err, Bool, List, ◌∷◌, true, refl}

module _ ⦃dec : DecimalLib⦄ where
  split_body-refuses :
      (p : ExecuteSplitParams) (t : Tables) (o : OwnerRow) (os : List OwnerRow)
      → owners_of p.property_id t ≡ o ∷ os
      → is_off_balance (o ∷ os) ≡ true
      → Yields (split_body p) t (err (thrown bad_ownership_total)) t
  unfolding split_body split_owners
  split_body-refuses p t o os found off =
      let (deductions, y) = fetch-Yields p.property_id (extract_period p) t in
      >>=-Yields _ (select-Yields _ t) (
        >>=-Yields _ y (
          >>=-Yields _ (select-Yields _ t)
            (rw (found, off) (throw_when->>-Yields bad_ownership_total _ t))))

  -- When no query fails and the owners of the property do not hold 100 % together, `executeSplit`
  -- refuses with the exception for it, and every table is as it was, in either kind of transaction.
  pub execute_split_refuses :
      (external : Bool) (p : ExecuteSplitParams) (s : Session Tables) (o : OwnerRow)
      (os : List OwnerRow)
      → NoFaults s
      → owners_of p.property_id s.store ≡ o ∷ os
      → is_off_balance (o ∷ os) ≡ true
      → ((execute_split external p s).0 ≡ err (thrown bad_ownership_total))
        × ((execute_split external p s).1.store ≡ s.store)
  unfolding execute_split
  execute_split_refuses true p s o os faultless found off =
      let y = split_body-refuses p s.store o os found off in
      (y.result s refl faultless, y.store s refl faultless)
  execute_split_refuses false p s o os faultless found off =
      let y = transaction-rolls_back-Yields (split_body-refuses p s.store o os found off) in
      (y.result s refl faultless, y.store s refl faultless)
