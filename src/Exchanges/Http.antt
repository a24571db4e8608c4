-- ===== src/Exchanges/Http.antt =====
-- internal/infrastructure/exchanges/{bybit,okx,binance}/client.go: the request that every FetchTickers
-- makes. What net/http and the JSON decoder gave is a parameter.
use exchange_data_importer.Prelude.{ℕ, ◌==◌, if◌then◌else◌}
use exchange_data_importer.Errors.{Error, errorf, wrapped, Result, ok, err}

-- The request could not be made, or it failed, or it was answered by a status and by what the decoder
-- makes of the body.
pub data Answer (A : Type 0) : Type 0 where
  not_created : Error → Answer A
  not_executed : Error → Answer A
  answered : ℕ → Result A → Answer A

-- `http.StatusOK`.
abbrev pub status_ok : ℕ
status_ok = 200

unfoldable pub response_of : {A : Type 0} → Answer A → Result A
response_of (not_created e) = err (wrapped "creating request for %s: %w" e)
response_of (not_executed e) = err (wrapped "executing request for %s: %w" e)
response_of (answered status body) =
    if status == status_ok
    then elim body [ ok a ↦ ok a | err e ↦ err (wrapped "decoding response from %s: %w" e) ]
    else err (errorf "unexpected status code %d: %s")
