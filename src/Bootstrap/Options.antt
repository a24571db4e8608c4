-- ===== src/Bootstrap/Options.antt =====
-- internal/bootstrap/options.go, and the splitting of topics in builder.go.
use Prim.Native.Char.{Char, code}
use exchange_data_importer.Prelude.{
  String, Bool, ◌&&◌, ◌||◌, Option, none, some, List, [], ◌∷◌, leb, ◌==◌, if◌then◌else◌, to_chars,
  of_chars,
}
use exchange_data_importer.Prelude.Int.{ℤ}
use exchange_data_importer.Errors.{Error, wrapped, Result, ok, err}

-- The options of Binance, Bybit and OKX.
pub record ExchangeOption : Type 0 where
  pub enabled : Bool
  pub api_url : String
  pub ws_url : String

pub record RedisOptions : Type 0 where
  pub url : String
  pub topics : String

pub record TelegramOptions : Type 0 where
  pub bot_token : String
  pub chat_id : String
  pub interval : ℤ
  pub topics : String

pub record DatadogOptions : Type 0 where
  pub enabled : Bool
  pub agent_host : String
  pub agent_port : String
  pub enabled_tracing : Bool
  pub enabled_metrics : Bool
  pub enabled_profiling : Bool

-- `Options`, with its groups laid flat.
pub record Options : Type 0 where
  pub env : String
  pub service_name : String
  pub mongo_enabled : Bool
  pub mongo_url : String
  pub sqlite_enabled : Bool
  pub sqlite_path : String
  pub binance : ExchangeOption
  pub bybit : ExchangeOption
  pub okx : ExchangeOption
  pub redis : RedisOptions
  pub telegram : TelegramOptions
  pub stdout_topics : String
  pub datadog : DatadogOptions

-- `ParseOptions`, by the error of the parser of flags.
unfoldable pub parse_options : Options → Option Error → Result Options
parse_options parsed none = ok parsed
parse_options parsed (some e) = err (wrapped "parsing options: %w" e)

abbrev pub is_space : Char → Bool
is_space c =
    let n = code c in
    (leb 9 n && leb n 13)
    || (n == 32)
    || (n == 0x85)
    || (n == 0xa0)
    || (n == 0x1680)
    || (leb 0x2000 n && leb n 0x200a)
    || (n == 0x2028)
    || (n == 0x2029)
    || (n == 0x202f)
    || (n == 0x205f)
    || (n == 0x3000)

-- `strings.Split(s, ",")`: the fields between the commas, at least one.
unfoldable pub split_commas : List Char → List (List Char)
split_commas [] = [] ∷ []
split_commas (c ∷ cs) =
    let fields = split_commas cs in
    if code c == b','
    then [] ∷ fields
    else elim fields [ [] ↦ (c ∷ []) ∷ [] | x ∷ rest ↦ (c ∷ x) ∷ rest ]

-- `strings.TrimSpace`.
unfoldable pub trim_left : List Char → List Char
trim_left [] = []
trim_left (c ∷ cs) = let rest = trim_left cs in if is_space c then rest else c ∷ cs

-- Drops the white space at the end.
unfoldable pub trim_right : List Char → List Char
trim_right [] = []
trim_right (c ∷ cs) = elim (trim_right cs) [
  | [] ↦ (if is_space c then [] else c ∷ [])
  | x ∷ rest ↦ c ∷ x ∷ rest
]

-- The loop of `splitTopics`: the trimmed fields that are not empty.
unfoldable pub trim_fields : List (List Char) → List String
unfolding trim_left trim_right
trim_fields [] = []
trim_fields (x ∷ rest) =
    let others = trim_fields rest in
    elim (trim_right (trim_left x)) [ [] ↦ others | c ∷ cs ↦ of_chars (c ∷ cs) ∷ others ]

-- `splitTopics`.
unfoldable pub split_topics : String → List String
unfolding split_commas trim_fields
split_topics topics = trim_fields (split_commas (to_chars topics))
