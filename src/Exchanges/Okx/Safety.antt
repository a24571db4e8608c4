-- ===== src/Exchanges/Okx/Safety.antt =====
-- internal/infrastructure/exchanges/okx: when the handling of a message panics.
use exchange_data_importer.Prelude.{
  String, ◌≡◌, refl, sym, subst, ◌≢◌, inl, inr, Option, none, some, List, [], ◌∷◌, str_eq, ◌==◌,
  Bool-cases, Option-cases, length, All,
}
use exchange_data_importer.Prelude.Int.{ℤ}
use exchange_data_importer.Float.{Float}
use exchange_data_importer.Errors.{Error, Result, ok, err}
use exchange_data_importer.Exchanges.{ExchangeLiquidation}
use exchange_data_importer.Exchanges.Channels.{Channels, send_error, send_liquidation}
use exchange_data_importer.Exchanges.Okx.{
  Detail, LiquidationDto, LiquidationEvent, first_detail, to_liquidation, send_all, process_message,
}

abbrev pub HasDetails : LiquidationDto → Type 0
HasDetails d = d.details ≢ []

module _ {F : Type 0} ⦃f : Float F⦄ (parse_float : String → Result F)
    (parse_int : String → Result ℤ) where
  -- A message that is handled without a panic.
  pub record Handled (out : Option (Channels F × Option Error)) : Type 0 where
    pub channels : Channels F
    pub problem : Option Error
    pub result : out ≡ some (channels, problem)

  to_liquidation_total :
      (d : LiquidationDto)
      → HasDetails d
      → (r : Result (ExchangeLiquidation F)) × (to_liquidation parse_float parse_int d ≡ some r)
  unfolding to_liquidation
  to_liquidation_total d h = go d.details refl
    where
      go :
          (l : List Detail)
          → l ≡ d.details
          → (r : Result (ExchangeLiquidation F)) × (to_liquidation parse_float parse_int d ≡ some r)
      go [] e = absurd (h (sym e))
      go (x ∷ rest) e = (first_detail parse_float parse_int d.inst_id x, rw (← e))

  send_all-Handled :
      (ds : List LiquidationDto) (c : Channels F)
      → All HasDetails ds
      → Handled (send_all parse_float parse_int ds c)
  unfolding send_all
  send_all-Handled [] c h = record { channels = c; problem = none; result = refl }
  send_all-Handled (d ∷ rest) c h =
      let (r, e) = to_liquidation_total d h.0 in
      subst after (sym e) (go (λ c'. send_all-Handled rest c' h.1) r)
    where
      after : Option (Result (ExchangeLiquidation F)) → Type 0
      after o = Handled (elim o [
        | none ↦ none
        | some (err e) ↦ send_all parse_float parse_int rest (send_error c e)
        | some (ok l) ↦ elim (send_liquidation c l).1 [
          | some e ↦ some ((send_liquidation c l).0, some e)
          | none ↦ send_all parse_float parse_int rest (send_liquidation c l).0
        ]
      ])

      go :
          ((c' : Channels F) → Handled (send_all parse_float parse_int rest c'))
          → (r : Result (ExchangeLiquidation F)) → after (some r)
      go others (err e) = others (send_error c e)
      go others (ok l) =
          let c' = (send_liquidation c l).0 in
          elim (Option-cases (send_liquidation c l).1) [
            | inl e ↦ rw e (others c')
            | inr (x, e) ↦ rw e (record { channels = c'; problem = some x; result = refl })
          ]

  -- A message of OKX whose liquidations all carry a detail is handled without a panic, whatever the
  -- decoder and the number parsers return.
  pub okx_process_message-Handled :
      (message : Result LiquidationEvent) (c : Channels F)
      → ((event : LiquidationEvent) → message ≡ ok event → All HasDetails event.list)
      → Handled (process_message parse_float parse_int message c)
  unfolding process_message
  okx_process_message-Handled (err e) c h = record {
    channels = send_error c e;
    problem = some e;
    result = refl;
  }
  okx_process_message-Handled (ok event) c h =
      elim (Bool-cases (str_eq event.channel "liquidation-orders")) [
        | inr other ↦ rw other (record { channels = c; problem = none; result = refl })
        | inl orders ↦ elim (Bool-cases (length event.list == 0)) [
          | inl empty ↦ rw (orders, empty) (record { channels = c; problem = none; result = refl })
          | inr some_ ↦ rw (orders, some_) (send_all-Handled event.list c (h event refl))
        ]
      ]
