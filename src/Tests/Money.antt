-- ===== src/Tests/Money.antt =====
-- Runs of src/common/money: 100.00 BOB for three equal owners, and a rent of 1000.01.
use gestion_alquileres_backe.Money.Allocate.Conservation.{
  allocate_within_one, allocate_never_unbalanced, allocate_conserves,
}
use gestion_alquileres_backe.Money.Currency.{codes}
use gestion_alquileres_backe.Money.Decimal.{exact_decimals}
use gestion_alquileres_backe.Money.Allocate.Parts.{AreWeights}
use gestion_alquileres_backe.Money.Numeral.{cents}
use gestion_alquileres_backe.Money.Allocate.{
  floor_div, allocate_minor, allocate, unbalanced, bad_index,
}
use gestion_alquileres_backe.Prelude.Int.{sum_ℤ, ℤ, ◌+ℤ◌, pos, negsuc, ◌*ℤ◌, pos_part}
use gestion_alquileres_backe.Prelude.{
  List, ◌∷◌, ◌≢◌, [], ◌≡◌, none, some, ok, err, length, get_or, map, ◌⊎◌, refl,
}
use gestion_alquileres_backe.Money.Value.{Money, of, to_minor_units}

abbrev hundred : Money
hundred = of (cents (pos 10000)) (codes "BOB")

abbrev thirds : List ℤ
thirds = pos 1 ∷ pos 1 ∷ pos 1 ∷ []

thirds-AreWeights : AreWeights thirds
unfolding sum_ℤ ◌+ℤ◌
thirds-AreWeights = record { none_negative = refl; some_positive = refl }

allocate_conserves_example :
    (parts : List Money) × (allocate ⦃dec = exact_decimals⦄ hundred thirds ≡ some (ok parts))
    × (length parts ≡ 3)
    × (sum_ℤ (map (to_minor_units ⦃dec = exact_decimals⦄) parts)
        ≡ to_minor_units ⦃dec = exact_decimals⦄ hundred)
allocate_conserves_example =
    allocate_conserves ⦃dec = exact_decimals⦄ hundred (pos 1) (pos 1 ∷ pos 1 ∷ []) thirds-AreWeights

allocate_within_one_example :
    let low = floor_div (pos 10000 *ℤ pos 1) (pos_part (sum_ℤ thirds)) in
    (parts : List ℤ) × (allocate_minor (pos 10000) thirds ≡ some (ok parts))
    × ((get_or parts 0 (pos 0) ≡ low) ⊎ (get_or parts 0 (pos 0) ≡ low +ℤ pos 1))
allocate_within_one_example =
    allocate_within_one (pos 10000) (pos 1) (pos 1 ∷ pos 1 ∷ []) 0 thirds-AreWeights refl

allocate_never_unbalanced_example :
    (allocate_minor (negsuc 99) thirds ≢ none)
    × (allocate_minor (negsuc 99) thirds ≢ some (err unbalanced))
    × (allocate_minor (negsuc 99) thirds ≢ some (err bad_index))
allocate_never_unbalanced_example = allocate_never_unbalanced (negsuc 99) thirds
