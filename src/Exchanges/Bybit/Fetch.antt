-- ===== src/Exchanges/Bybit/Fetch.antt =====
-- internal/infrastructure/exchanges/bybit/client.go: FetchTickers, and the names that it leaves for the
-- subscription.
use exchange_data_importer.Prelude.{
  String, ◌≡◌, refl, sym, ap, ◌∙◌, subst, ◌≢◌, ◌⊎◌, inl, inr, Bool, true, false, ◌||◌, none, some,
  List, [], ◌∷◌, map, arith, ◌==◌, if◌then◌else◌, Bool-cases, length, any_of, All,
}
use exchange_data_importer.Float.{Float}
use exchange_data_importer.Time.{Time}
use exchange_data_importer.Errors.{Result, ok, err, Result-cases}
use exchange_data_importer.Exchanges.{ExchangeTicker}
use exchange_data_importer.Exchanges.Channels.{Channels}
use exchange_data_importer.Exchanges.Http.{Answer, response_of}
use exchange_data_importer.Exchanges.Session.{Attempt, read_messages}
use exchange_data_importer.Exchanges.Session.Link.{opened, follow}
use exchange_data_importer.Exchanges.Bybit.{
  TickersInfo, TickerDto, TickerResponse, refresh_tickers, set_available_tickers, fetched,
  topics_of, process_message,
}
use exchange_data_importer.Exchanges.Bybit.Session.{
  Message, link_of, connect_and_handle, connect_and_handle-follow,
}

module _ {F : Type 0} ⦃f : Float F⦄ (parse_float : String → Result F) where
  -- `FetchTickers`: the names that the client keeps, and the tickers or the error.
  unfoldable pub fetch_tickers :
      Answer TickerResponse → Time → TickersInfo → TickersInfo × Result (List (ExchangeTicker F))
  unfolding response_of fetched
  fetch_tickers answer now info = elim (response_of answer) [
    | err e ↦ (info, err e)
    | ok response ↦
        let (info', tickers) = fetched parse_float info response now in (info', ok tickers)
  ]

  -- The names after a sequence of calls, each with its answer and its time.
  abbrev pub names_after : List (Answer TickerResponse × Time) → TickersInfo → TickersInfo
  names_after [] info = info
  names_after (call ∷ rest) info = names_after rest (fetch_tickers call.0 call.1 info).0

  abbrev Known : TickersInfo → Type 0
  Known info = info.available_tickers ≢ []

  -- A response that is decoded lists a ticker.
  abbrev pub NeverEmpty : Answer TickerResponse × Time → Type 0
  NeverEmpty call =
      (response : TickerResponse) → response_of call.0 ≡ ok response → response.list ≢ []

  abbrev pub is_decoded : Answer TickerResponse × Time → Bool
  is_decoded call = elim (response_of call.0) [ ok response ↦ true | err e ↦ false ]

  symbols_of : List TickerDto → List String
  symbols_of list = map (λ t. t.symbol) list

  nonempty_length : (names : List String) → names ≢ [] → (length names == 0) ≡ false
  nonempty_length [] h = absurd (h refl)
  nonempty_length (name ∷ rest) h = ground arith

  symbols_of-nonempty : (list : List TickerDto) → list ≢ [] → symbols_of list ≢ []
  unfolding symbols_of
  symbols_of-nonempty [] h = λ e. h refl
  symbols_of-nonempty (t ∷ rest) h = λ e. cc

  refresh_tickers-Known :
      (info : TickersInfo) (response : TickerResponse) (now : Time)
      → response.list ≢ []
      → Known (refresh_tickers info (symbols_of response.list) now)
  unfolding refresh_tickers set_available_tickers
  refresh_tickers-Known info response now h = go (length info.available_tickers == 0) refl _
    where
      go :
          (unknown : Bool)
          → (length info.available_tickers == 0) ≡ unknown
          → (stale : Bool)
          → Known (
              if unknown || stale
              then set_available_tickers (symbols_of response.list) now
              else info)
      go true e stale = symbols_of-nonempty response.list h
      go false e true = symbols_of-nonempty response.list h
      go false e false = λ none_known. absurd (ground (arith, ap length none_known))

  fetch_tickers-Known :
      (call : Answer TickerResponse × Time) (info : TickersInfo)
      → NeverEmpty call
      → Known info ⊎ (is_decoded call ≡ true)
      → Known (fetch_tickers call.0 call.1 info).0
  unfolding fetch_tickers fetched symbols_of
  fetch_tickers-Known call info h k = elim (Result-cases (response_of call.0)) [
    | inl (response, e) ↦
        rw (fetch_tickers, e) (refresh_tickers-Known info response call.1 (h response e))
    | inr (problem, e) ↦ elim k [
      | inl known ↦ rw (fetch_tickers, e) known
      | inr decoded ↦ absurd (cc (e, decoded))
    ]
  ]

  names_after-Known :
      (calls : List (Answer TickerResponse × Time)) (info : TickersInfo)
      → All NeverEmpty calls
      → Known info ⊎ (any_of is_decoded calls ≡ true)
      → Known (names_after calls info)
  names_after-Known [] info h (inl k) = k
  names_after-Known [] info h (inr k) = absurd (cc k)
  names_after-Known (call ∷ rest) info h k =
      names_after-Known rest (fetch_tickers call.0 call.1 info).0 h.1
        (elim (Bool-cases (is_decoded call)) [
          | inl decoded ↦ inl (fetch_tickers-Known call info h.0 (inr decoded))
          | inr failed ↦ elim k [
            | inl known ↦ inl (fetch_tickers-Known call info h.0 (inl known))
            | inr later ↦ inr (cc (failed, later))
          ]
        ])

  -- Once a call of FetchTickers has been answered by a response that decodes, and as long as no
  -- such response is empty, whatever calls fail in between and whenever the names are refreshed, a
  -- connection that is dialled and that takes the subscription to the names that the client then
  -- keeps is read from: `connectAndHandle` goes on to its loop of reads, over all reads of the
  -- connection, and never returns for want of names.
  pub bybit_names_known :
      (calls : List (Answer TickerResponse × Time)) (info : TickersInfo) (a : Attempt Message)
      → All NeverEmpty calls
      → any_of is_decoded calls ≡ true
      → a.available_tickers ≡ (names_after calls info).available_tickers
      → a.dial ≡ none
      → a.write_json (topics_of a.available_tickers) ≡ none
      → (c : Channels F)
      → connect_and_handle parse_float a c
        ≡ read_messages (λ m k. some (process_message parse_float m k)) a.reads c
  bybit_names_known calls info a h d names dial write c =
      let known = names_after-Known calls info h (inr d) in
      let some_name : (length a.available_tickers == 0) ≡ false =
        nonempty_length a.available_tickers (subst (λ l. l ≢ []) (sym names) known) in
      let is_opened : link_of a ≡ opened = rw (dial, some_name, write) in
      connect_and_handle-follow parse_float a c
      ∙ ap (λ l. follow (λ m k. some (process_message parse_float m k)) l a.reads c) is_opened
