-- ===== src/Bootstrap/Exchange.antt =====
-- internal/infrastructure/exchanges/{binance,bybit,okx}/client.go: the constructors of the clients, as
-- the builder calls them, and their names.
use exchange_data_importer.Prelude.{String, str_eq, if◌then◌else◌}
use exchange_data_importer.Bootstrap.Options.{Options, ExchangeOption}

-- `exchanges.Exchange`, as the configuration of the client behind it.
pub record ClientConfig : Type 0 where
  pub name : String
  pub api_url : String
  pub ws_url : String

pub data Exchange : Type 0 where
  binance bybit okx : ClientConfig → Exchange

abbrev pub or_default : String → String → String
or_default text d = if str_eq text "" then d else text

-- `NewBinance`, `NewBybit` and `NewOKX`.
unfoldable pub new_binance : ClientConfig → Exchange
new_binance c = binance (record {
  name = or_default c.name "Binance perpetual";
  api_url = or_default c.api_url "https://fapi.binance.com/fapi/v1";
  ws_url = or_default c.ws_url "wss://fstream.binance.com/ws/!forceOrder@arr";
})

unfoldable pub new_bybit : ClientConfig → Exchange
new_bybit c = bybit (record {
  name = c.name;
  api_url = or_default c.api_url "https://api.bybit.com/v5";
  ws_url = or_default c.ws_url "wss://stream.bybit.com/v5/public/linear";
})

unfoldable pub new_okx : ClientConfig → Exchange
new_okx c = okx (record {
  name = c.name;
  api_url = or_default c.api_url "https://www.okx.com/api/v5";
  ws_url = or_default c.ws_url "wss://ws.okx.com:8443/ws/v5/public";
})

abbrev pub config_of : Options → ExchangeOption → ClientConfig
config_of o x = record { name = o.service_name; api_url = x.api_url; ws_url = x.ws_url }

-- `GetName` of the exchange.
abbrev pub name_of : Exchange → String
name_of (binance c) = c.name
name_of (bybit c) = c.name
name_of (okx c) = c.name
