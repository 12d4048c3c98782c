-- ===== src/Reservations/Ical/Text.antt =====
-- What src/reservations/ical takes from the strings of the language: joining, replacing, splitting.
use gestion_alquileres_backe.Prelude.{
  ℕ, List, ◌∷◌, Bool, ◌++◌, if◌then◌else◌, true, ◌==◌, [], false, ◌&&◌, ◌||◌, drop,
}
use gestion_alquileres_backe.Money.Currency.{Code}

-- `lines.join(separator)`
unfoldable pub join : Code → List Code → Code
join separator [] = []
join separator (line ∷ []) = line
join separator (line ∷ next ∷ rest) = line ++ (separator ++ join separator (next ∷ rest))

-- `text.replace(/c/g, by)`
unfoldable pub replace_char : ℕ → Code → Code → Code
replace_char c by [] = []
replace_char c by (x ∷ xs) =
    let rest = replace_char c by xs in if x == c then by ++ rest else x ∷ rest

-- `text.startsWith(prefix)`
unfoldable pub starts_with : Code → Code → Bool
starts_with [] text = true
starts_with (p ∷ ps) [] = false
starts_with (p ∷ ps) (x ∷ xs) = (p == x) && starts_with ps xs

-- `text.replace(/\r\n/g, '\n')`: the one before each line feed goes
unfoldable pub to_line_feeds : Code → Code
to_line_feeds [] = []
to_line_feeds (x ∷ xs) =
    let rest = to_line_feeds xs in
    if x == b'\r' && starts_with (b'\n' ∷ []) xs then rest else x ∷ rest

-- `[ \t]`
abbrev pub is_fold : ℕ → Bool
is_fold c = c == b' ' || c == b'\t'

unfoldable pub starts_fold : Code → Bool
starts_fold [] = false
starts_fold (x ∷ xs) = is_fold x

-- `text.replace(/\n[ \t]/g, '')`: what stands behind a line feed and a blank is what stands behind the
-- blank, which is no line feed
unfoldable pub drop_folds : Code → Code
drop_folds [] = []
drop_folds (x ∷ xs) =
    let kept = drop_folds xs in if x == b'\n' && starts_fold xs then drop 1 kept else x ∷ kept

-- a character before the first line
abbrev push : ℕ → List Code → List Code
push x [] = (x ∷ []) ∷ []
push x (line ∷ rest) = (x ∷ line) ∷ rest

-- `text.split('\n')`
unfoldable pub split_lines : Code → List Code
split_lines [] = [] ∷ []
split_lines (x ∷ xs) = let rest = split_lines xs in if x == b'\n' then [] ∷ rest else push x rest
