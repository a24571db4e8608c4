-- ===== src/Importer/Metrics/Spans.antt =====
-- internal/importer/process_tick.go: the spans of a round of the import.
use exchange_data_importer.Prelude.{
  ℕ, String, ◌≡◌, refl, ◌∙◌, inl, inr, Option, none, some, List, [], ◌∷◌, ◌++◌, str_eq, arith,
  if◌then◌else◌, Option-cases, eq_iff,
}
use exchange_data_importer.Prelude.Int.{ℤ}
use exchange_data_importer.Float.{Float}
use exchange_data_importer.Errors.{Error, Result, ok, err}
use exchange_data_importer.Exchanges.{ExchangeTicker}
use exchange_data_importer.Telemetry.{
  Call, span_start, span_set_tag, span_finish, Span, noop_span, dd_span, TagValue, start_span,
  set_tag, finish, increment_counter, set_gauge, record_timing,
}
use exchange_data_importer.Telemetry.Provider.{
  Provider, noop, datadog, provider_start_span, provider_increment_counter, provider_gauge,
  provider_timing,
}
use exchange_data_importer.Importer.Metrics.{
  Durations, telemetry_span_fetch_tickers, telemetry_span_build_tick, telemetry_span_import_tick,
  fetch_calls, build_calls, import_calls,
}

-- The open spans once a span is started.
abbrev under : Span → List String → List String
under noop_span s = s
under (dd_span name) s = name ∷ s

module _ {F : Type 0} where
  -- The spans that are open after a call, the innermost first: only that one may be tagged or
  -- finished.
  unfoldable step : List String → Call F → Option (List String)
  step stack (span_start name) = some (name ∷ stack)
  step [] (span_finish name) = none
  step (top ∷ stack) (span_finish name) = if str_eq top name then some stack else none
  step [] (span_set_tag name key value) = none
  step (top ∷ stack) (span_set_tag name key value) =
      if str_eq top name then some (top ∷ stack) else none
  step stack call = some stack

  -- The open spans after a sequence of calls.
  unfoldable pub open_after : List String → List (Call F) → Option (List String)
  unfolding step
  open_after stack [] = some stack
  open_after stack (c ∷ rest) = elim (step stack c) [
    | none ↦ none
    | some stack' ↦ open_after stack' rest
  ]

  then_open :
      (s t : List String) (a b : List (Call F))
      → open_after s a ≡ some t
      → open_after s (a ++ b) ≡ open_after t b
  unfolding open_after
  then_open s t [] b h = ground arith
  then_open s t (c ∷ rest) b h = elim (Option-cases (step s c)) [
    | inl e ↦ absurd (cc (e, h))
    | inr (s', e) ↦ let ih = then_open s' t rest b (cc (e, h)) in cc (e, ih)
  ]

module _ (F : Type 0) where
  started_under :
      (p : Provider) (name : String) (s : List String)
      → let (span, started) = provider_start_span {F = F} p name in
        open_after s started ≡ some (under span s)
  unfolding open_after provider_start_span start_span
  started_under noop name s = refl
  started_under (datadog dp) name s = ground (arith, eq_iff name name)

  set_tag-under :
      (span : Span) (s : List String) (key : String) (value : TagValue)
      → open_after (under span s) (set_tag {F = F} span key value) ≡ some (under span s)
  unfolding open_after set_tag
  set_tag-under noop_span s key value = refl
  set_tag-under (dd_span name) s key value = ground (arith, eq_iff name name)

  finish-under :
      (span : Span) (s : List String) → open_after (under span s) (finish {F = F} span) ≡ some s
  unfolding open_after finish
  finish-under noop_span s = refl
  finish-under (dd_span name) s = ground (arith, eq_iff name name)

  counter_under :
      (p : Provider) (s : List String) (name : String) (n : ℤ) (tags : List String)
      → open_after s (provider_increment_counter {F = F} p name n tags) ≡ some s
  unfolding open_after provider_increment_counter increment_counter
  counter_under noop s name n tags = refl
  counter_under (datadog dp) s name n tags = ground arith

  timing_under :
      (p : Provider) (s : List String) (name : String) (n : ℤ) (tags : List String)
      → open_after s (provider_timing {F = F} p name n tags) ≡ some s
  unfolding open_after provider_timing record_timing
  timing_under noop s name n tags = refl
  timing_under (datadog dp) s name n tags = ground arith

  gauge_under :
      (p : Provider) (s : List String) (name : String) (x : F) (tags : List String)
      → open_after s (provider_gauge {F = F} p name x tags) ≡ some s
  unfolding open_after provider_gauge set_gauge
  gauge_under noop s name x tags = refl
  gauge_under (datadog dp) s name x tags = ground arith

module _ (F : Type 0) ⦃f : Float F⦄ where
  build_calls_closed :
      (p : Provider) (d : Durations) (processed : ℕ) (s : List String)
      → open_after s (build_calls {F = F} p d processed) ≡ some s
  unfolding build_calls
  build_calls_closed p d processed s =
      let (span, started) = provider_start_span {F = F} p telemetry_span_build_tick in
      let u = under span s in
      then_open s u _ _ (started_under F p telemetry_span_build_tick s)
      ∙ (then_open u u _ _ (timing_under F p u _ _ _)
          ∙ (then_open u u _ _ (gauge_under F p u _ _ _)
              ∙ (then_open u u _ _ (timing_under F p u _ _ _) ∙ finish-under F span s)))

module _ {F : Type 0} ⦃f : Float F⦄ where
  fetch_calls_closed :
      (error_text : Error → String) (p : Provider) (d : Durations)
      (fetched : Result (List (ExchangeTicker F))) (s : List String)
      → open_after s (fetch_calls error_text p d fetched) ≡ some s
  unfolding fetch_calls
  fetch_calls_closed error_text p d (err e) s =
      let (span, started) = provider_start_span {F = F} p telemetry_span_fetch_tickers in
      let u = under span s in
      then_open s u _ _ (started_under F p telemetry_span_fetch_tickers s)
      ∙ (then_open u u _ _ (timing_under F p u _ _ _)
          ∙ (then_open u u _ _ (gauge_under F p u _ _ _)
              ∙ (then_open u u _ _ (set_tag-under F span s _ _)
                  ∙ (then_open u u _ _ (set_tag-under F span s _ _)
                      ∙ (then_open u u _ _ (counter_under F p u _ _ _) ∙ finish-under F span s)))))
  fetch_calls_closed error_text p d (ok tickers) s =
      let (span, started) = provider_start_span {F = F} p telemetry_span_fetch_tickers in
      let u = under span s in
      then_open s u _ _ (started_under F p telemetry_span_fetch_tickers s)
      ∙ (then_open u u _ _ (timing_under F p u _ _ _)
          ∙ (then_open u u _ _ (gauge_under F p u _ _ _)
              ∙ (then_open u u _ _ (set_tag-under F span s _ _) ∙ finish-under F span s)))

  -- Whatever the provider is, and whatever the exchange answers, a round of the import closes every
  -- span that it opens: its calls only tag and finish the innermost span that is open, and leave
  -- open those that were open before.
  pub import_calls_closed :
      (error_text : Error → String) (p : Provider) (d : Durations)
      (fetched : Result (List (ExchangeTicker F))) (processed : ℕ) (s : List String)
      → open_after s (import_calls error_text p d fetched processed) ≡ some s
  unfolding import_calls
  import_calls_closed error_text p d (err e) processed s =
      let (span, started) = provider_start_span {F = F} p telemetry_span_import_tick in
      let u = under span s in
      then_open s u _ _ (started_under F p telemetry_span_import_tick s)
      ∙ (then_open u u _ _ (fetch_calls_closed error_text p d (err e) u) ∙ finish-under F span s)
  import_calls_closed error_text p d (ok tickers) processed s =
      let (span, started) = provider_start_span {F = F} p telemetry_span_import_tick in
      let u = under span s in
      then_open s u _ _ (started_under F p telemetry_span_import_tick s)
      ∙ (then_open u u _ _ (fetch_calls_closed error_text p d (ok tickers) u)
          ∙ (then_open u u _ _ (build_calls_closed F p d processed u) ∙ finish-under F span s))
