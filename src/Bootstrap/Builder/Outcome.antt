-- ===== src/Bootstrap/Builder/Outcome.antt =====
-- internal/bootstrap/builder.go: what the chain of main builds.
use exchange_data_importer.Prelude.{
  String, ◌≡◌, refl, sym, ap, subst, ◌∙◌, ◌≢◌, inl, inr, Option, none, some, Option-cases,
}
use exchange_data_importer.Prelude.Partial.{◌>>=◌}
use exchange_data_importer.Errors.{Error, errorf, Result, ok, err}
use exchange_data_importer.Repository.Factories.{
  TickRepository, LiquidationRepository, get_tick_repository, get_liquidation_repository,
}
use exchange_data_importer.Importer.Tick.{State}
use exchange_data_importer.Importer.Start.{new_importer}
use exchange_data_importer.Bootstrap.Options.{Options, parse_options}
use exchange_data_importer.Bootstrap.Exchange.{Exchange, name_of}
use exchange_data_importer.Bootstrap.Builder.{
  Builder, Outside, App, problem_of, new_builder, with_logger, with_exchange, with_repository,
  with_telemetry, build, build_app,
}
use exchange_data_importer.Bootstrap.Builder.OnWay.{
  chosen, configured, HasLoggers, IsOnWay, with_logger-HasStarted, with_exchange-IsOnWay,
  with_repository-IsOnWay, with_notifiers-IsOnWay, with_telemetry-IsOnWay,
}

module _ {F : Type 0} where
  -- The importer that `Build` makes over the repositories of a builder with an exchange.
  abbrev pub made_importer : Outside → Builder → Exchange → Option (State F)
  made_importer w b x =
      new_importer (problem_of (get_tick_repository w.set_up b.repository_factory (name_of x)))
        (problem_of (get_liquidation_repository w.set_up b.repository_factory (name_of x)))

  -- An application that can run: on the exchange that the options choose, over two repositories that
  -- were made, and with the importer of a first start.
  pub record CanRun (w : Outside) (o : Options) (app : App F) : Type 0 where
    pub exchange : Exchange
    pub chooses : chosen o ≡ some exchange
    pub has_exchange : app.builder.exchange ≡ some exchange
    pub has_factory : app.builder.repository_factory ≡ configured o
    pub ticks : TickRepository
    pub has_ticks :
        get_tick_repository w.set_up app.builder.repository_factory (name_of exchange) ≡ ok ticks
    pub liquidations : LiquidationRepository
    pub has_liquidations :
        get_liquidation_repository w.set_up app.builder.repository_factory (name_of exchange)
        ≡ ok liquidations
    pub is_new : new_importer none none ≡ some app.importer

  made_importer_lem :
      (t : Result TickRepository) (l : Result LiquidationRepository) (s : State F)
      → new_importer (problem_of t) (problem_of l) ≡ some s
      → ((x : TickRepository) × (t ≡ ok x))
        × ((y : LiquidationRepository) × (l ≡ ok y))
        × (new_importer {F = F} none none ≡ some s)
  unfolding new_importer
  made_importer_lem (ok x) (ok y) s h = ((x, refl), (y, refl), h)
  made_importer_lem (ok x) (err e) s h = absurd (cc h)
  made_importer_lem (err e) l s h = absurd (cc h)

  build_failed :
      (w : Outside) (b : Builder) (e : Error)
      → b.problem ≡ some e
      → build {F = F} w b ≡ some (err e)
  unfolding build
  build_failed w b e h = rw (h, build)

  build_refused :
      (w : Outside) (b : Builder) (x : Exchange)
      → b.problem ≡ none
      → b.logger ≢ none
      → b.exchange ≡ some x
      → made_importer w b x ≡ none
      → build {F = F} w b ≡ some (err (errorf "missing required dependencies"))
  unfolding build
  build_refused w b x h l k m = elim (Option-cases b.logger) [
    | inl missing ↦ absurd (l missing)
    | inr (logger, e) ↦ cc (h, e, k, m)
  ]

  build_fine :
      (w : Outside) (b : Builder) (x : Exchange) (s : State F)
      → b.problem ≡ none
      → b.logger ≢ none
      → b.exchange ≡ some x
      → made_importer w b x ≡ some s
      → build {F = F} w b ≡ some (ok (record { builder = b; importer = s }))
  unfolding build
  build_fine w b x s h l k m = elim (Option-cases b.logger) [
    | inl missing ↦ absurd (l missing)
    | inr (logger, e) ↦ cc (h, e, k, m)
  ]

  -- What is promised of the result of `Build`.
  abbrev pub IsSound : Outside → Options → Option (Result (App F)) → Type 0
  IsSound w o out = (out ≢ none) × ((app : App F) → out ≡ some (ok app) → CanRun w o app)

  failed-IsSound : (w : Outside) (o : Options) (e : Error) → IsSound w o (some (err e))
  failed-IsSound w o e = ((λ h. cc), (λ app h. absurd (cc h)))

  fine-IsSound :
      (w : Outside) (o : Options) (app : App F) → CanRun w o app → IsSound w o (some (ok app))
  fine-IsSound w o app r =
      ((λ h. cc), (λ app' h. let e : app ≡ app' = cc h in subst (CanRun w o) e r))

  build-IsSound :
      (w : Outside) (o : Options) (b : Builder)
      → IsOnWay o (configured o) b
      → IsSound w o (build w b)
  build-IsSound w o b i = elim (Option-cases b.problem) [
    | inr (e, failed) ↦ subst (IsSound w o) (sym (build_failed w b e failed)) (failed-IsSound w o e)
    | inl fine ↦ elim (Option-cases b.exchange) [
      | inl missing ↦ absurd (i.has_some fine missing)
      | inr (x, found) ↦ elim (Option-cases (made_importer w b x)) [
        | inl refused ↦
            subst (IsSound w o) (sym (build_refused w b x fine (i.has_logger fine) found refused))
              (failed-IsSound w o _)
        | inr (s, made) ↦
            let m = made_importer_lem _ _ s made in
            subst (IsSound w o) (sym (build_fine w b x s fine (i.has_logger fine) found made)) (
              fine-IsSound w o _ (record {
                exchange = x;
                chooses = sym (i.has_exchange fine) ∙ found;
                has_exchange = found;
                has_factory = i.has_factory fine;
                ticks = m.0.0;
                has_ticks = m.0.1;
                liquidations = m.1.0;
                has_liquidations = m.1.1;
                is_new = m.2;
              }))
      ]
    ]
  ]

  -- Where zap makes its loggers, the chain of main always returns: it never reaches the
  -- constructors of the notifier and of the importer with no logger or no exchange. An application
  -- that it returns runs on the first exchange that the options enable, in the order Binance,
  -- Bybit, OKX; over MongoDB if that is enabled, else over SQLite if that is enabled with a path,
  -- and else over the memory; with both repositories made there under that exchange's name, and
  -- with the importer of a first start.
  pub build_app_outcome :
      (w : Outside) (o : Options) (parse_error : Option Error) (revision : String)
      → HasLoggers w
      → (build_app {F = F} w o parse_error revision ≢ none)
        × ((app : App F) → build_app w o parse_error revision ≡ some (ok app) → CanRun w o app)
  unfolding build_app new_builder parse_options
  build_app_outcome w o parse_error revision made =
      let b0 = with_logger w (new_builder w o parse_error) in
      let b1 = with_exchange b0 in
      let b2 = with_repository w b1 in
      let i = with_repository-IsOnWay w o b1 (
        with_exchange-IsOnWay o b0
          (with_logger-HasStarted w (new_builder w o parse_error) made refl)) in
      let (b3, e, i3) = with_notifiers-IsOnWay w o (configured o) b2 i in
      subst (IsSound w o) (ap (λ x. x >>= (λ b. build w (with_telemetry w revision b))) (sym e)) (
        build-IsSound w o (with_telemetry w revision b3)
          (with_telemetry-IsOnWay w o (configured o) revision b3 i3))
