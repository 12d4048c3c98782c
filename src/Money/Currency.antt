-- ===== src/Money/Currency.antt =====
-- src/common/money/currency.ts: the codes of currencies and the decimals of their minor unit.
-- A code is the list of its characters' code points; only ASCII letters and blanks change here.
use Prim.Native.Char.{code}
use Prim.Native.String.{String}
use gestion_alquileres_backe.Prelude.{
  ℕ, ◌-◌, ◌^◌, ◌≡◌, refl, Bool, true, false, ◌&&◌, ◌||◌, List, [], ◌∷◌, map, leb, ◌==◌,
  if◌then◌else◌, arith, ◌↔◌, any,
}

abbrev pub Code : Type 0
Code = List ℕ

abbrev pub codes : String → List ℕ
codes String.[] = []
codes (String.◌∷◌ c s) = code c ∷ codes s

unfoldable pub code_eq : Code → Code → Bool
code_eq [] [] = true
code_eq (x ∷ xs) (y ∷ ys) = (x == y) && code_eq xs ys
code_eq _ _ = false

pub code_eq_iff : (a b : Code) → (code_eq a b ≡ true) ↔ (a ≡ b)
unfolding code_eq
code_eq_iff [] [] = ((λ h. refl), (λ h. refl))
code_eq_iff [] (y ∷ ys) = ((λ h. cc), (λ h. cc))
code_eq_iff (x ∷ xs) [] = ((λ h. cc), (λ h. cc))
code_eq_iff (x ∷ xs) (y ∷ ys) =
    ((λ h. ground (arith, (code_eq_iff xs ys).0)), (λ h. ground (arith, (code_eq_iff xs ys).1)))

pub code_eq_refl : (a : Code) → code_eq a a ≡ true
code_eq_refl a = (code_eq_iff a a).1 refl

-- the blanks that `trim` drops, and the ASCII letters that `toUpperCase` maps
unfoldable pub is_blank : ℕ → Bool
is_blank c =
    (leb 9 c && leb c 13)
    || any (λ d. c == d) (32 ∷ 160 ∷ 5760 ∷ 8232 ∷ 8233 ∷ 8239 ∷ 8287 ∷ 12288 ∷ 65279 ∷ [])
    || (leb 8192 c && leb c 8202)

to_upper : ℕ → ℕ
to_upper c = if leb b'a' c && leb c b'z' then c - 32 else c

unfoldable pub drop_blanks : Code → Code
drop_blanks [] = []
drop_blanks (c ∷ cs) = if is_blank c then drop_blanks cs else c ∷ cs

-- blanks at the end: a blank stays where something that is no blank follows it
unfoldable pub drop_last_blanks : Code → Code
drop_last_blanks [] = []
drop_last_blanks (c ∷ cs) =
    let rest = drop_last_blanks cs in
    elim rest [ [] ↦ if is_blank c then [] else c ∷ [] | d ∷ ds ↦ c ∷ d ∷ ds ]

-- `s.trim()`
unfoldable pub trimmed : Code → Code
unfolding is_blank drop_blanks drop_last_blanks
trimmed s = drop_last_blanks (drop_blanks s)

-- `code.trim().toUpperCase()`
unfoldable pub normalize_currency : Code → Code
unfolding to_upper trimmed
normalize_currency s = map to_upper (trimmed s)

abbrev pub default_scale : ℕ
default_scale = 2

abbrev currency_scale : List (Code × ℕ)
currency_scale =
    (codes "USD", 2)
    ∷ (codes "BOB", 2)
    ∷ (codes "GTQ", 2)
    ∷ (codes "HNL", 2)
    ∷ (codes "EUR", 2)
    ∷ (codes "MXN", 2)
    ∷ (codes "JPY", 0)
    ∷ (codes "CLP", 0)
    ∷ (codes "KWD", 3)
    ∷ []

-- `table[key] ?? fallback`
lookup_scale : Code → List (Code × ℕ) → ℕ
lookup_scale k [] = default_scale
lookup_scale k ((c, scale) ∷ rest) = if code_eq k c then scale else lookup_scale k rest

unfoldable pub get_currency_scale : Code → ℕ
unfolding code_eq normalize_currency lookup_scale
get_currency_scale s = lookup_scale (normalize_currency s) currency_scale

unfoldable pub get_minor_unit_factor : Code → ℕ
unfolding get_currency_scale
get_minor_unit_factor s = 10 ^ get_currency_scale s
