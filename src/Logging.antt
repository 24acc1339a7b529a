-- ===== src/Logging.antt =====
-- internal/logging/logger.go: the loggers, and the trace's identifiers on a log line. A logger writes
-- JSON lines; a line is the fields and the message handed to it, less the time that zerolog adds.
use payment_webhook_processo.Prelude.{String, Option, none, some, List, [], ◌∷◌, ◌++◌}
use payment_webhook_processo.World.{LogValue, LogEvent, str}

-- os.Stdout and io.Discard.
pub data Writer : Type 0 where
  stdout discard : Writer

pub record Logger : Type 0 where
  pub writer : Writer

abbrev pub new_json_logger : Writer → Logger
new_json_logger writer = record { writer = writer }

-- The lines that come through.
abbrev pub lines_to : Writer → List LogEvent → List LogEvent
lines_to stdout lines = lines
lines_to discard lines = []

abbrev pub LogFields : Type 0
LogFields = List (String × LogValue)

-- A valid span context; an invalid or absent one is `none`.
pub record SpanContext : Type 0 where
  pub trace_id : String
  pub span_id : String

abbrev pub with_span : Option SpanContext → LogFields → LogFields
with_span none fields = fields
with_span (some span) fields =
    fields ++ ("trace_id", str span.trace_id) ∷ ("span_id", str span.span_id) ∷ []

-- A nil event, of a disabled level, stays nil.
unfoldable pub with_trace_context : Option SpanContext → Option LogFields → Option LogFields
with_trace_context span none = none
with_trace_context span (some fields) = some (with_span span fields)
