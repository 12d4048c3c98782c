-- ===== src/Reservations/Ical.antt =====
-- src/reservations/ical: ical-builder.ts writes the dates that are taken as an iCalendar text, and
-- ical-parser.ts reads such a text. A text is a list of code points.
pub mod Text
pub mod Builder
pub mod Parser
pub mod Lines
pub mod Dates
pub mod Document
pub mod RoundTrip
