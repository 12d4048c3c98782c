-- ===== src/Reservations/Ical/RoundTrip.antt =====
-- What ical-builder.ts of src/reservations/ical writes, ical-parser.ts reads back.
use mathlib.Core.List.{append_assoc}
use gestion_alquileres_backe.Reservations.Ical.Document.{IsEvent, tail_lines, unfold_lines-build}
use gestion_alquileres_backe.Reservations.Ical.Text.{starts_with}
use gestion_alquileres_backe.Reservations.Ical.Dates.{
  dashed, trimmed-prefix, trimmed-line, trimmed-date, to_iso_date-basic,
}
use gestion_alquileres_backe.Prelude.{
  Option, List, ◌≡◌, ◌∷◌, ap, ◌++◌, some, false, true, none, ◌∙◌, refl, [], All, map, any, ◌==◌,
}
use gestion_alquileres_backe.Reservations.Ical.Parser.{
  BusyRange, parse_lines, ParserState, next_state, emit, read_date, line_value, push_range,
  end_or_next, parse_icalendar,
}
use gestion_alquileres_backe.Money.Currency.{
  Code, trimmed, codes, drop_last_blanks, drop_blanks, is_blank, code_eq,
}
use gestion_alquileres_backe.Reservations.Ical.Builder.{
  IcalEvent, event_lines, escape_text, head_lines, IcalOptions, build_icalendar,
}

-- the range of an event: its dates with dashes
unfoldable pub range_of : IcalEvent → BusyRange
range_of event = record { start = dashed event.start; end = dashed event.end }

-- the variables in an event, and between two
abbrev within : Option Code → Option Code → ParserState
within start end = record { in_event = true; start = start; end = end }

abbrev between : Option Code → Option Code → ParserState
between start end = record { in_event = false; start = start; end = end }

module _ (add_one_day : Code → Option Code) where
  -- a line by what is left of it
  parse_line :
      (s : ParserState) (raw line : Code) (rest : List Code)
      → trimmed raw ≡ line
      → parse_lines add_one_day s (raw ∷ rest)
        ≡ emit add_one_day line s (parse_lines add_one_day (next_state line s) rest)
  unfolding parse_lines
  parse_line s raw line rest h =
      ap (λ x. emit add_one_day x s (parse_lines add_one_day (next_state x s) rest)) h

  -- the lines before the dates
  parse_opening :
      (dtstamp : Code) (event : IcalEvent) (s : ParserState) (rest : List Code)
      → parse_lines add_one_day s (
          codes "BEGIN:VEVENT" ∷ (codes "UID:" ++ event.uid) ∷ (codes "DTSTAMP:" ++ dtstamp) ∷ rest)
        ≡ parse_lines add_one_day (within none none) rest
  unfolding next_state emit read_date starts_with is_blank code_eq
  parse_opening dtstamp event s rest =
      parse_line s (codes "BEGIN:VEVENT") (codes "BEGIN:VEVENT")
        ((codes "UID:" ++ event.uid) ∷ (codes "DTSTAMP:" ++ dtstamp) ∷ rest)
        (trimmed-line b'B' (codes "EGIN:VEVENT") refl)
      ∙ parse_line (within none none) (codes "UID:" ++ event.uid)
          (codes "UID:" ++ drop_last_blanks event.uid) ((codes "DTSTAMP:" ++ dtstamp) ∷ rest)
          (trimmed-prefix b'U' (codes "ID:") event.uid refl)
      ∙ parse_line (within none none) (codes "DTSTAMP:" ++ dtstamp)
          (codes "DTSTAMP:" ++ drop_last_blanks dtstamp) rest
          (trimmed-prefix b'D' (codes "TSTAMP:") dtstamp refl)

  -- the lines of the dates
  parse_dates :
      (event : IcalEvent) (rest : List Code)
      → IsEvent event
      → parse_lines add_one_day (within none none) (
          (codes "DTSTART;VALUE=DATE:" ++ event.start)
          ∷ (codes "DTEND;VALUE=DATE:" ++ event.end)
          ∷ rest)
        ≡ parse_lines add_one_day
            (within (some (dashed event.start)) (some (dashed event.end)))
            rest
  unfolding next_state emit read_date starts_with line_value is_blank code_eq
  parse_dates event rest h =
      parse_line (within none none) (codes "DTSTART;VALUE=DATE:" ++ event.start)
        (codes "DTSTART;VALUE=DATE:" ++ event.start)
        ((codes "DTEND;VALUE=DATE:" ++ event.end) ∷ rest)
        (trimmed-date b'D' (codes "TSTART;VALUE=DATE:") event.start refl h.start_date)
      ∙ ap
          (λ x.
            parse_lines add_one_day (within x none)
              ((codes "DTEND;VALUE=DATE:" ++ event.end) ∷ rest))
          (to_iso_date-basic event.start h.start_date)
      ∙ parse_line (within (some (dashed event.start)) none)
          (codes "DTEND;VALUE=DATE:" ++ event.end) (codes "DTEND;VALUE=DATE:" ++ event.end) rest
          (trimmed-date b'D' (codes "TEND;VALUE=DATE:") event.end refl h.end_date)
      ∙ ap (λ x. parse_lines add_one_day (within (some (dashed event.start)) x) rest)
          (to_iso_date-basic event.end h.end_date)

  -- the lines behind the dates
  parse_closing :
      (start end summary : Code) (rest : List Code)
      → parse_lines add_one_day
          (within (some start) (some end))
          ((codes "SUMMARY:" ++ summary) ∷ codes "END:VEVENT" ∷ rest)
        ≡ push_range add_one_day
            (some start)
            (some end)
            (parse_lines add_one_day (between (some start) (some end)) rest)
  unfolding next_state emit read_date starts_with is_blank code_eq
  parse_closing start end summary rest =
      parse_line (within (some start) (some end)) (codes "SUMMARY:" ++ summary)
        (codes "SUMMARY:" ++ drop_last_blanks summary) (codes "END:VEVENT" ∷ rest)
        (trimmed-prefix b'S' (codes "UMMARY:") summary refl)
      ∙ parse_line (within (some start) (some end)) (codes "END:VEVENT") (codes "END:VEVENT") rest
          (trimmed-line b'E' (codes "ND:VEVENT") refl)

  -- the lines of an event give its range
  parse_lines-event :
      (dtstamp : Code) (event : IcalEvent) (s : ParserState) (rest : List Code)
      → IsEvent event
      → parse_lines add_one_day s (event_lines dtstamp event ++ rest)
        ≡ push_range add_one_day (some (dashed event.start)) (some (dashed event.end)) (
            parse_lines add_one_day
              (between (some (dashed event.start)) (some (dashed event.end)))
              rest)
  unfolding event_lines
  parse_lines-event dtstamp event s rest h =
      parse_opening dtstamp event s (
        (codes "DTSTART;VALUE=DATE:" ++ event.start)
        ∷ (codes "DTEND;VALUE=DATE:" ++ event.end)
        ∷ (codes "SUMMARY:" ++ escape_text event.summary)
        ∷ codes "END:VEVENT"
        ∷ rest)
      ∙ parse_dates event
          ((codes "SUMMARY:" ++ escape_text event.summary) ∷ codes "END:VEVENT" ∷ rest) h
      ∙ parse_closing (dashed event.start) (dashed event.end) (escape_text event.summary) rest

  -- the last lines give nothing
  parse_end :
      (start end : Option Code)
      → parse_lines add_one_day (between start end) (codes "END:VCALENDAR" ∷ [] ∷ []) ≡ some []
  unfolding next_state emit parse_lines trimmed drop_last_blanks drop_blanks is_blank code_eq
  parse_end start end = refl

  -- the lines behind the head give the ranges
  parse_tail :
      (dtstamp : Code) (events : List IcalEvent) (start end : Option Code)
      → All IsEvent events
      → parse_lines add_one_day (between start end) (tail_lines dtstamp events ++ ([] ∷ []))
        ≡ some (map range_of events)
  unfolding tail_lines push_range end_or_next range_of
  parse_tail dtstamp [] start end h = parse_end start end
  parse_tail dtstamp (event ∷ rest) start end (e, h) =
      ap (parse_lines add_one_day (between start end))
        (append_assoc (event_lines dtstamp event) (tail_lines dtstamp rest) ([] ∷ []))
      ∙ parse_lines-event dtstamp event (between start end) (tail_lines dtstamp rest ++ ([] ∷ [])) e
      ∙ ap (push_range add_one_day (some (dashed event.start)) (some (dashed event.end)))
          (parse_tail dtstamp rest (some (dashed event.start)) (some (dashed event.end)) h)

  -- a line of the head gives nothing
  parse_other :
      (raw line : Code) (rest : List Code)
      → trimmed raw ≡ line
      → code_eq line (codes "BEGIN:VEVENT") ≡ false
      → code_eq line (codes "END:VEVENT") ≡ false
      → parse_lines add_one_day (between none none) (raw ∷ rest)
        ≡ parse_lines add_one_day (between none none) rest
  unfolding next_state emit
  parse_other raw line rest t b e = parse_line (between none none) raw line rest t ∙ rw (b, e) refl

  parse_head :
      (options : IcalOptions) (rest : List Code)
      → parse_lines add_one_day (between none none) (head_lines options ++ rest)
        ≡ parse_lines add_one_day (between none none) rest
  unfolding head_lines is_blank code_eq
  parse_head options rest =
      let name = codes "X-WR-CALNAME:" ++ escape_text options.calendar_name in
      let publish = codes "METHOD:PUBLISH" in
      let scale = codes "CALSCALE:GREGORIAN" in
      let product = codes "PRODID:" ++ options.prod_id in
      let version = codes "VERSION:2.0" in
      parse_other (codes "BEGIN:VCALENDAR") (codes "BEGIN:VCALENDAR")
        (version ∷ product ∷ scale ∷ publish ∷ name ∷ rest)
        (trimmed-line b'B' (codes "EGIN:VCALENDAR") refl) refl refl
      ∙ parse_other version version (product ∷ scale ∷ publish ∷ name ∷ rest)
          (trimmed-line b'V' (codes "ERSION:2.0") refl) refl refl
      ∙ parse_other product (codes "PRODID:" ++ drop_last_blanks options.prod_id)
          (scale ∷ publish ∷ name ∷ rest)
          (trimmed-prefix b'P' (codes "RODID:") options.prod_id refl) refl refl
      ∙ parse_other scale scale (publish ∷ name ∷ rest)
          (trimmed-line b'C' (codes "ALSCALE:GREGORIAN") refl) refl refl
      ∙ parse_other publish publish (name ∷ rest) (trimmed-line b'M' (codes "ETHOD:PUBLISH") refl)
          refl refl
      ∙ parse_other name
          (codes "X-WR-CALNAME:" ++ drop_last_blanks (escape_text options.calendar_name)) rest
          (trimmed-prefix b'X' (codes "-WR-CALNAME:") (escape_text options.calendar_name) refl) refl
          refl

  -- The calendar that is written for events is read back as the ranges of these events, in their order,
  -- with the dates YYYY-MM-DD of their dates YYYYMMDD, whatever stands in the summaries and in the name of
  -- the calendar: where the dates of each event are eight digits, and neither the identifiers of the
  -- events nor the product nor the time stamp has a line feed. No event needs the day behind its start.
  pub parse_icalendar-build :
      (events : List IcalEvent) (options : IcalOptions)
      → any (λ x. x == b'\n') options.prod_id ≡ false
      → any (λ x. x == b'\n') options.dtstamp ≡ false
      → All IsEvent events
      → parse_icalendar add_one_day (build_icalendar events options) ≡ some (map range_of events)
  unfolding parse_icalendar
  parse_icalendar-build events options p d h =
      let tail = tail_lines options.dtstamp events in
      ap (parse_lines add_one_day (between none none))
        (unfold_lines-build events options p d h ∙ append_assoc (head_lines options) tail ([] ∷ []))
      ∙ parse_head options (tail ++ ([] ∷ []))
      ∙ parse_tail options.dtstamp events none none h
