-- ===== src/Tests/Calendars.antt =====
-- Runs of src/reservations/ical: a calendar of two stays is written and read.
use gestion_alquileres_backe.Reservations.Ical.Text.{
  split_lines, drop_folds, to_line_feeds, starts_with, starts_fold, join, replace_char,
}
use gestion_alquileres_backe.Reservations.Ical.RoundTrip.{range_of, parse_icalendar-build}
use gestion_alquileres_backe.Reservations.Ical.Document.{IsEvent}
use gestion_alquileres_backe.Prelude.{Option, [], some, ◌∷◌, ◌≡◌, refl, map}
use gestion_alquileres_backe.Reservations.Ical.Parser.{
  parse_icalendar, parse_lines, unfold_lines, emit, end_or_next, iso_date, line_value, next_state,
  push_range, read_date, to_iso_date,
}
use gestion_alquileres_backe.Reservations.Ical.Dates.{basic_digits}
use gestion_alquileres_backe.Money.Currency.{
  Code, codes, code_eq, trimmed, drop_blanks, drop_last_blanks, is_blank,
}
use gestion_alquileres_backe.Reservations.Ical.Builder.{
  IcalEvent, IcalOptions, build_icalendar, head_lines, escape_text, build_event, event_lines,
}

abbrev first_stay : IcalEvent
first_stay = record {
  uid = codes "12@rentals";
  start = codes "20260610";
  end = codes "20260614";
  summary = codes "Reserved, 2 guests\nEND:VEVENT";
}

abbrev second_stay : IcalEvent
second_stay = record {
  uid = codes "13@rentals";
  start = codes "20261230";
  end = codes "20270102";
  summary = [];
}

abbrev rentals : IcalOptions
rentals = record {
  prod_id = codes "-//Rentals//EN";
  calendar_name = codes "Unit 4";
  dtstamp = codes "20260601T000000Z";
}

-- a next day for every date
abbrev some_day : Code → Option Code
some_day date = some (codes "2026-06-11")

first_stay-IsEvent : IsEvent first_stay
unfolding basic_digits
first_stay-IsEvent = record { start_date = refl; end_date = refl; uid_line = refl }

second_stay-IsEvent : IsEvent second_stay
unfolding basic_digits
second_stay-IsEvent = record { start_date = refl; end_date = refl; uid_line = refl }

-- The second stay is read alone.
one_stay :
    parse_icalendar some_day (build_icalendar (second_stay ∷ []) rentals)
    ≡ some (record { start = codes "2026-12-30"; end = codes "2027-01-02" } ∷ [])
unfolding parse_icalendar parse_lines unfold_lines split_lines drop_folds to_line_feeds starts_with
    starts_fold emit code_eq trimmed drop_blanks drop_last_blanks is_blank end_or_next iso_date
    line_value next_state push_range read_date to_iso_date build_icalendar join head_lines
    escape_text replace_char build_event event_lines
one_stay = refl

-- A start without an end takes one night; its line is folded.
one_night :
    parse_icalendar some_day (codes "BEGIN:VEVENT\nDTSTART:2026\n 0610T120000Z\nEND:VEVENT")
    ≡ some (record { start = codes "2026-06-10"; end = codes "2026-06-11" } ∷ [])
unfolding parse_icalendar parse_lines unfold_lines split_lines drop_folds to_line_feeds starts_with
    starts_fold emit code_eq trimmed drop_blanks drop_last_blanks is_blank end_or_next iso_date
    line_value next_state push_range read_date to_iso_date
one_night = refl

parse_icalendar-build_example :
    parse_icalendar some_day (build_icalendar (first_stay ∷ second_stay ∷ []) rentals)
    ≡ some (map range_of (first_stay ∷ second_stay ∷ []))
parse_icalendar-build_example =
    parse_icalendar-build some_day (first_stay ∷ second_stay ∷ []) rentals refl refl
      (first_stay-IsEvent, (second_stay-IsEvent, tt))
