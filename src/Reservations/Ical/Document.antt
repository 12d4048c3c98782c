-- ===== src/Reservations/Ical/Document.antt =====
-- The document that ical-builder.ts of src/reservations/ical builds, as the lines that ical-parser.ts gets.
-- an event that the builder gets: two dates, and an identifier on one line
use mathlib.Core.List.{append_assoc}
use mathlib.Core.Bool.{true}
use gestion_alquileres_backe.Reservations.Ical.Lines.{
  IsLine, ended, join-ended, unfold_lines-ended, ended-append,
}
use gestion_alquileres_backe.Prelude.{
  any, List, ◌==◌, ◌≡◌, ◌∷◌, false, ◌++◌, Bool, [], All, if◌then◌else◌, refl, true, All-append, ap,
  map, ◌∙◌, sym, drop,
}
use gestion_alquileres_backe.Reservations.Ical.Parser.{unfold_lines}
use gestion_alquileres_backe.Reservations.Ical.Dates.{IsBasicDate, date_line, basic_cases}
use gestion_alquileres_backe.Money.Currency.{Code, codes}
use gestion_alquileres_backe.Reservations.Ical.Text.{replace_char, starts_fold, join}
use gestion_alquileres_backe.Reservations.Ical.Builder.{
  IcalEvent, escape_text, head_lines, event_lines, IcalOptions, build_event, build_icalendar, crlf,
}

pub record IsEvent (event : IcalEvent) : Type 0 where
  pub start_date : IsBasicDate event.start
  pub end_date : IsBasicDate event.end
  pub uid_line : any (λ x. x == b'\n') event.uid ≡ false

feed_gone : (value : Code) → any (λ x. x == b'\n') (replace_char b'\n' (codes "\\n") value) ≡ false
unfolding replace_char
feed_gone [] = refl
feed_gone (x ∷ xs) = go (x == b'\n') refl (feed_gone xs)
  where
    go :
        (b : Bool)
        → x == b'\n' ≡ b
        → any (λ y. y == b'\n') (replace_char b'\n' (codes "\\n") xs) ≡ false
        → any
            (λ y. y == b'\n')
            (if x == b'\n'
              then codes "\\n" ++ replace_char b'\n' (codes "\\n") xs
              else x ∷ replace_char b'\n' (codes "\\n") xs)
          ≡ false
    go true e h = rw e h
    go false e h = rw e (rw e h)

escaped_line : (value : Code) → any (λ x. x == b'\n') (escape_text value) ≡ false
unfolding escape_text
escaped_line value = feed_gone (
    replace_char b',' (codes "\\,")
      (replace_char b';' (codes "\\;") (replace_char b'\\' (codes "\\\\") value)))

-- the lines behind the head
unfoldable pub tail_lines : Code → List IcalEvent → List Code
tail_lines dtstamp [] = codes "END:VCALENDAR" ∷ []
tail_lines dtstamp (event ∷ rest) = event_lines dtstamp event ++ tail_lines dtstamp rest

head-IsLine :
    (options : IcalOptions)
    → any (λ x. x == b'\n') options.prod_id ≡ false
    → All IsLine (head_lines options)
unfolding head_lines starts_fold
head-IsLine options p = (
  record { no_feed = refl; no_fold = refl },
  (
    record { no_feed = refl; no_fold = refl },
    (
      record { no_feed = p; no_fold = refl },
      (
        record { no_feed = refl; no_fold = refl },
        (
          record { no_feed = refl; no_fold = refl },
          (record { no_feed = escaped_line options.calendar_name; no_fold = refl }, tt),
        ),
      ),
    ),
  ),
)

event-IsLine :
    (dtstamp : Code) (event : IcalEvent)
    → any (λ x. x == b'\n') dtstamp ≡ false
    → IsEvent event
    → All IsLine (event_lines dtstamp event)
unfolding event_lines starts_fold
event-IsLine dtstamp event d e = (
  record { no_feed = refl; no_fold = refl },
  (
    record { no_feed = e.uid_line; no_fold = refl },
    (
      record { no_feed = d; no_fold = refl },
      (
        record {
          no_feed = date_line event.start (basic_cases event.start e.start_date);
          no_fold = refl;
        },
        (
          record {
            no_feed = date_line event.end (basic_cases event.end e.end_date);
            no_fold = refl;
          },
          (
            record { no_feed = escaped_line event.summary; no_fold = refl },
            (record { no_feed = refl; no_fold = refl }, tt),
          ),
        ),
      ),
    ),
  ),
)

tail-IsLine :
    (dtstamp : Code) (events : List IcalEvent)
    → any (λ x. x == b'\n') dtstamp ≡ false
    → All IsEvent events
    → All IsLine (tail_lines dtstamp events)
unfolding tail_lines starts_fold
tail-IsLine dtstamp [] d h = (record { no_feed = refl; no_fold = refl }, tt)
tail-IsLine dtstamp (event ∷ rest) d (e, h) =
    All-append IsLine (event_lines dtstamp event) (tail_lines dtstamp rest)
      (event-IsLine dtstamp event d e) (tail-IsLine dtstamp rest d h)

-- a piece of joined lines, and what follows
joined_first :
    (line : Code) (lines rest : List Code)
    → ended crlf (join crlf (line ∷ lines) ∷ rest) ≡ ended crlf (line ∷ lines) ++ ended crlf rest
unfolding ended
joined_first line lines rest =
    sym (append_assoc (join crlf (line ∷ lines)) crlf (ended crlf rest))
    ∙ ap (λ x. x ++ ended crlf rest) (join-ended crlf line lines)

-- the joined events are their lines
tail-ended :
    (dtstamp : Code) (events : List IcalEvent)
    → ended crlf (map (build_event dtstamp) events ++ (codes "END:VCALENDAR" ∷ []))
      ≡ ended crlf (tail_lines dtstamp events)
unfolding tail_lines build_event event_lines
tail-ended dtstamp [] = refl
tail-ended dtstamp (event ∷ rest) =
    joined_first (codes "BEGIN:VEVENT") (drop 1 (event_lines dtstamp event))
      (map (build_event dtstamp) rest ++ (codes "END:VCALENDAR" ∷ []))
    ∙ ap (λ x. ended crlf (event_lines dtstamp event) ++ x) (tail-ended dtstamp rest)
    ∙ sym (ended-append crlf (event_lines dtstamp event) (tail_lines dtstamp rest))

build-ended :
    (events : List IcalEvent) (options : IcalOptions)
    → build_icalendar events options
      ≡ ended crlf (head_lines options ++ tail_lines options.dtstamp events)
unfolding build_icalendar head_lines
build-ended events options =
    let tail = map (build_event options.dtstamp) events ++ (codes "END:VCALENDAR" ∷ []) in
    join-ended crlf (codes "BEGIN:VCALENDAR") (drop 1 (head_lines options) ++ tail)
    ∙ ended-append crlf (head_lines options) tail
    ∙ ap (λ x. ended crlf (head_lines options) ++ x) (tail-ended options.dtstamp events)
    ∙ sym (ended-append crlf (head_lines options) (tail_lines options.dtstamp events))

-- the lines that the parser gets
pub unfold_lines-build :
    (events : List IcalEvent) (options : IcalOptions)
    → any (λ x. x == b'\n') options.prod_id ≡ false
    → any (λ x. x == b'\n') options.dtstamp ≡ false
    → All IsEvent events
    → unfold_lines (build_icalendar events options)
      ≡ (head_lines options ++ tail_lines options.dtstamp events) ++ ([] ∷ [])
unfold_lines-build events options p d h =
    ap unfold_lines (build-ended events options)
    ∙ unfold_lines-ended (head_lines options ++ tail_lines options.dtstamp events) (
        All-append IsLine (head_lines options) (tail_lines options.dtstamp events)
          (head-IsLine options p) (tail-IsLine options.dtstamp events d h))
