-- ===== src/Telemetry/Component.antt =====
-- internal/infrastructure/telemetry/datadog.go: the component that a span is tagged with.
use Prim.Native.Char.{Char, code}
use exchange_data_importer.Prelude.{
  String, ◌≡◌, refl, ap, true, List, [], ◌∷◌, ◌++◌, str_eq, str_append, ◌==◌, if◌then◌else◌,
  to_chars, of_chars, to_chars-append, arith,
}
use exchange_data_importer.Telemetry.{
  DatadogProvider, span_start, span_set_tag, text_value, noop_span, dd_span, before_dot,
  component_of, trace,
}

before_dot-append :
    (cs ds : List Char) (d : Char)
    → (code d == b'.') ≡ true
    → before_dot (cs ++ d ∷ ds) ≡ before_dot cs
unfolding before_dot
before_dot-append [] ds d e = rw e
before_dot-append (c ∷ cs) ds d e = rw (before_dot-append cs ds d e)

component_of-append :
    (name rest : String) → component_of (str_append name (str_append "." rest)) ≡ component_of name
unfolding component_of
component_of-append name rest = ap of_chars (
    rw (to_chars-append, to_chars-append)
      (before_dot-append (to_chars name) (to_chars rest) "." refl))

-- The name of a span: that of its tracer, and behind it that of the operation if it is another.
abbrev pub full_name : String → String → String
full_name name operation_name =
    if str_eq operation_name name then name else str_append name (str_append "." operation_name)

module _ {F : Type 0} where
  -- Whatever the operation is called, and whether or not its name repeats the tracer's or holds
  -- dots, a span of a tracer is started under its full name and tagged with the component of the
  -- tracer's name, if tracing is enabled; if it is not, the span does nothing and no call is made.
  pub trace_tagged :
      (dp : DatadogProvider) (name operation_name : String)
      → let full = full_name name operation_name in
        trace {F = F} dp name operation_name ≡ (
          if dp.config.enable_tracing
          then (
            dd_span full,
            span_start full ∷ span_set_tag full "component" (text_value (component_of name)) ∷ [],
          )
          else (noop_span, []))
  unfolding trace
  trace_tagged dp name operation_name = ground (arith, component_of-append name operation_name)
