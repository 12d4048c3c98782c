-- ===== src/Reservations/Ical/Parser.antt =====
-- src/reservations/ical/ical-parser.ts. The arithmetic of `Date` in `addOneDay` is an argument,
-- `add_one_day`, without a value where `Date` throws.

use gestion_alquileres_backe.Reservations.Ical.Text.{
  split_lines, drop_folds, starts_with, to_line_feeds,
}
use gestion_alquileres_backe.Prelude.{
  ℕ, Bool, List, leb, Option, ◌∷◌, ◌&&◌, if◌then◌else◌, some, false, [], ◌==◌, none, true,
}
use gestion_alquileres_backe.Money.Currency.{Code, trimmed, codes, code_eq}

pub record BusyRange : Type 0 where
  pub start : Code
  pub end : Code

-- `unfold`
unfoldable pub unfold_lines : Code → List Code
unfold_lines text = split_lines (drop_folds (to_line_feeds text))

abbrev pub is_digit : ℕ → Bool
is_digit c = leb b'0' c && leb c b'9'

-- `/^(\d{4})(\d{2})(\d{2})/` and `${match[1]}-${match[2]}-${match[3]}`
unfoldable pub iso_date : Code → Option Code
iso_date (a ∷ b ∷ c ∷ d ∷ e ∷ f ∷ g ∷ h ∷ rest) =
    if is_digit a
      && is_digit b
      && is_digit c
      && is_digit d
      && is_digit e
      && is_digit f
      && is_digit g
      && is_digit h
    then some (a ∷ b ∷ c ∷ d ∷ b'-' ∷ e ∷ f ∷ b'-' ∷ g ∷ h ∷ [])
    else none
iso_date _ = none

-- `toIsoDate`
unfoldable pub to_iso_date : Code → Option Code
to_iso_date value = iso_date (trimmed value)

-- `lineValue`
unfoldable pub line_value : Code → Code
line_value [] = []
line_value (x ∷ xs) = if x == b':' then xs else line_value xs

-- the variables of `parseIcalendar`
pub record ParserState : Type 0 where
  pub in_event : Bool
  pub start : Option Code
  pub end : Option Code

-- a line of an event
unfoldable pub read_date : Code → ParserState → ParserState
read_date line s =
    if starts_with (codes "DTSTART") line
    then record s { start = to_iso_date (line_value line) }
    else if starts_with (codes "DTEND") line
    then record s { end = to_iso_date (line_value line) }
    else s

-- the variables behind a line
unfoldable pub next_state : Code → ParserState → ParserState
next_state line s =
    if code_eq line (codes "BEGIN:VEVENT")
    then record { in_event = true; start = none; end = none }
    else if code_eq line (codes "END:VEVENT")
    then record s { in_event = false }
    else if s.in_event
    then read_date line s
    else s

module _ (add_one_day : Code → Option Code) where
  -- `end ?? addOneDay(start)`
  unfoldable pub end_or_next : Code → Option Code → Option Code
  end_or_next start none = add_one_day start
  end_or_next start (some end) = some end

  -- what `END:VEVENT` pushes before the later ranges
  unfoldable pub push_range :
      Option Code → Option Code → Option (List BusyRange) → Option (List BusyRange)
  push_range none end rest = rest
  push_range (some start) end rest = with_end start (end_or_next start end) rest
    where
      with_end : Code → Option Code → Option (List BusyRange) → Option (List BusyRange)
      with_end start none rest = none
      with_end start (some end) none = none
      with_end start (some end) (some rest) = some (record { start = start; end = end } ∷ rest)

  -- what a line pushes before the later ranges
  unfoldable pub emit : Code → ParserState → Option (List BusyRange) → Option (List BusyRange)
  emit line s rest =
      if code_eq line (codes "END:VEVENT") then push_range s.start s.end rest else rest

  -- the loop of `parseIcalendar`
  unfoldable pub parse_lines : ParserState → List Code → Option (List BusyRange)
  parse_lines s [] = some []
  parse_lines s (raw ∷ rest) =
      let later = parse_lines (next_state (trimmed raw) s) rest in emit (trimmed raw) s later

  -- `parseIcalendar`
  unfoldable pub parse_icalendar : Code → Option (List BusyRange)
  parse_icalendar text =
      parse_lines (record { in_event = false; start = none; end = none }) (unfold_lines text)
