-- ===== src/Reservations/Ical/Builder.antt =====
-- src/reservations/ical/ical-builder.ts.
use gestion_alquileres_backe.Reservations.Ical.Text.{replace_char, join}
use gestion_alquileres_backe.Prelude.{List, ◌∷◌, [], ◌++◌, map}
use gestion_alquileres_backe.Money.Currency.{Code, codes}

pub record IcalEvent : Type 0 where
  pub uid : Code
  pub start : Code
  pub end : Code
  pub summary : Code

pub record IcalOptions : Type 0 where
  pub prod_id : Code
  pub calendar_name : Code
  pub dtstamp : Code

abbrev pub crlf : Code
crlf = b'\r' ∷ b'\n' ∷ []

-- `escapeText`: backslashes, semicolons, commas and line feeds
unfoldable pub escape_text : Code → Code
escape_text value = replace_char b'\n' (codes "\\n") (
    replace_char b',' (codes "\\,")
      (replace_char b';' (codes "\\;") (replace_char b'\\' (codes "\\\\") value)))

-- the lines of `buildEvent`
unfoldable pub event_lines : Code → IcalEvent → List Code
event_lines dtstamp event =
    codes "BEGIN:VEVENT"
    ∷ (codes "UID:" ++ event.uid)
    ∷ (codes "DTSTAMP:" ++ dtstamp)
    ∷ (codes "DTSTART;VALUE=DATE:" ++ event.start)
    ∷ (codes "DTEND;VALUE=DATE:" ++ event.end)
    ∷ (codes "SUMMARY:" ++ escape_text event.summary)
    ∷ codes "END:VEVENT"
    ∷ []

-- `buildEvent`
unfoldable pub build_event : Code → IcalEvent → Code
build_event dtstamp event = join crlf (event_lines dtstamp event)

unfoldable pub head_lines : IcalOptions → List Code
head_lines options =
    codes "BEGIN:VCALENDAR"
    ∷ codes "VERSION:2.0"
    ∷ (codes "PRODID:" ++ options.prod_id)
    ∷ codes "CALSCALE:GREGORIAN"
    ∷ codes "METHOD:PUBLISH"
    ∷ (codes "X-WR-CALNAME:" ++ escape_text options.calendar_name)
    ∷ []

-- `buildIcalendar`
unfoldable pub build_icalendar : List IcalEvent → IcalOptions → Code
build_icalendar events options =
    join crlf (
      head_lines options
      ++ map (build_event options.dtstamp) events
      ++ (codes "END:VCALENDAR" ∷ []))
    ++ crlf
