-- ===== src/Exchanges/Binance/MarketData.antt =====
-- internal/infrastructure/exchanges/binance/market_data.go: the keys of the table of markets, in its order.
-- The figures beside them are not read.
use exchange_data_importer.Prelude.{String, List, [], ◌∷◌}

-- The symbols of `marketDataJSON`.
abbrev pub market_data_symbols : List String
market_data_symbols =
    "BTCUSDT" ∷ "ETHUSDT" ∷ "BNBUSDT" ∷ "SOLUSDT" ∷ "TRUMPUSDT" ∷ "XRPUSDT" ∷ "DOGEUSDT" ∷ "SUIUSDT"
    ∷ "BAKEUSDT" ∷ "LAYERUSDT" ∷ "CAKEUSDT" ∷ "LTCUSDT" ∷ "ADAUSDT" ∷ "THEUSDT" ∷ "ENAUSDT"
    ∷ "WIFUSDT" ∷ "LINKUSDT" ∷ "BERAUSDT" ∷ "HEIUSDT" ∷ "NEIROUSDT" ∷ "LDOUSDT" ∷ "BSWUSDT"
    ∷ "DOTUSDT" ∷ "AVAXUSDT" ∷ "WLDUSDT" ∷ "1000CATUSDT" ∷ "TAOUSDT" ∷ "PNUTUSDT" ∷ "AAVEUSDT"
    ∷ "HBARUSDT" ∷ "PENGUUSDT" ∷ "1MBABYDOGEUSDT" ∷ "ZENUSDT" ∷ "APTUSDT" ∷ "TRXUSDT" ∷ "SUSDT"
    ∷ "ALPACAUSDT" ∷ "TIAUSDT" ∷ "CRVUSDT" ∷ "EIGENUSDT" ∷ "RUNEUSDT" ∷ "FILUSDT" ∷ "NEARUSDT"
    ∷ "JUPUSDT" ∷ "GALAUSDT" ∷ "COOKIEUSDT" ∷ "LISTAUSDT" ∷ "FETUSDT" ∷ "ACTUSDT" ∷ "ORDIUSDT"
    ∷ "XLMUSDT" ∷ "ARBUSDT" ∷ "UNIUSDT" ∷ "XVSUSDT" ∷ "OPUSDT" ∷ "BCHUSDT" ∷ "INJUSDT" ∷ "SOLVUSDT"
    ∷ "ETCUSDT" ∷ "PEOPLEUSDT" ∷ "ETHFIUSDT" ∷ "QTUMUSDT" ∷ "PENDLEUSDT" ∷ "BIOUSDT" ∷ "ATOMUSDT"
    ∷ "USUALUSDT" ∷ "ARKMUSDT" ∷ "EOSUSDT" ∷ "GMXUSDT" ∷ "NOTUSDT" ∷ "ALGOUSDT" ∷ "USTCUSDT"
    ∷ "SANDUSDT" ∷ "ENSUSDT" ∷ "BOMEUSDT" ∷ "TONUSDT" ∷ "SEIUSDT" ∷ "APEUSDT" ∷ "GMTUSDT"
    ∷ "JTOUSDT" ∷ "DYDXUSDT" ∷ "ICPUSDT" ∷ "ARUSDT" ∷ "TURBOUSDT" ∷ "TRBUSDT" ∷ "IOUSDT" ∷ "VETUSDT"
    ∷ "ACHUSDT" ∷ "DOGSUSDT" ∷ "HOOKUSDT" ∷ "MKRUSDT" ∷ "SUSHIUSDT" ∷ "STXUSDT" ∷ "ZROUSDT"
    ∷ "AXSUSDT" ∷ "SPELLUSDT" ∷ "THETAUSDT" ∷ "CHZUSDT" ∷ "CFXUSDT" ∷ "KAVAUSDT" ∷ "MEMEUSDT"
    ∷ "LPTUSDT" ∷ "SAGAUSDT" ∷ "C98USDT" ∷ "BELUSDT" ∷ "RSRUSDT" ∷ "KASUSDT" ∷ "IOTAUSDT"
    ∷ "MANAUSDT" ∷ "SNXUSDT" ∷ "LUMIAUSDT" ∷ "SCRUSDT" ∷ "BLURUSDT" ∷ "AGLDUSDT" ∷ "GRTUSDT"
    ∷ "SSVUSDT" ∷ "COMPUSDT" ∷ "PHBUSDT" ∷ "MASKUSDT" ∷ "COTIUSDT" ∷ "NEOUSDT" ∷ "FLOWUSDT"
    ∷ "IMXUSDT" ∷ "ARPAUSDT" ∷ "LQTYUSDT" ∷ "EDUUSDT" ∷ "QNTUSDT" ∷ "ALPHAUSDT" ∷ "PYTHUSDT"
    ∷ "CYBERUSDT" ∷ "1INCHUSDT" ∷ "SXPUSDT" ∷ "XTZUSDT" ∷ "TWTUSDT" ∷ "EGLDUSDT" ∷ "BIGTIMEUSDT"
    ∷ "FIDAUSDT" ∷ "LEVERUSDT" ∷ "MAGICUSDT" ∷ "SUPERUSDT" ∷ "WOOUSDT" ∷ "UMAUSDT" ∷ "YFIUSDT"
    ∷ "TLMUSDT" ∷ "ZRXUSDT" ∷ "HOTUSDT" ∷ "MINAUSDT" ∷ "CELOUSDT" ∷ "SKLUSDT" ∷ "ONTUSDT"
    ∷ "ZILUSDT" ∷ "HMSTRUSDT" ∷ "XVGUSDT" ∷ "ALICEUSDT" ∷ "IOTXUSDT" ∷ "ROSEUSDT" ∷ "KSMUSDT"
    ∷ "STEEMUSDT" ∷ "ENJUSDT" ∷ "FLMUSDT" ∷ "TNSRUSDT" ∷ "GASUSDT" ∷ "BATUSDT" ∷ "RDNTUSDT"
    ∷ "ATAUSDT" ∷ "SFPUSDT" ∷ "STGUSDT" ∷ "CHRUSDT" ∷ "CATIUSDT" ∷ "HIGHUSDT" ∷ "TRUUSDT"
    ∷ "MAVUSDT" ∷ "STORJUSDT" ∷ "ILVUSDT" ∷ "YGGUSDT" ∷ "LRCUSDT" ∷ "JOEUSDT" ∷ "DASHUSDT"
    ∷ "ASTRUSDT" ∷ "OGNUSDT" ∷ "POLYXUSDT" ∷ "FXSUSDT" ∷ "DENTUSDT" ∷ "RVNUSDT" ∷ "GTCUSDT"
    ∷ "CKBUSDT" ∷ "ANKRUSDT" ∷ "PROMUSDT" ∷ "RLCUSDT" ∷ "NMRUSDT" ∷ "KNCUSDT" ∷ "ICXUSDT"
    ∷ "API3USDT" ∷ "BICOUSDT" ∷ "BANDUSDT" ∷ "BSVUSDT" ∷ "CELRUSDT" ∷ "ETHWUSDT" ∷ "TOKENUSDT"
    ∷ "IOSTUSDT" ∷ "DUSKUSDT" ∷ "MTLUSDT" ∷ "BADGERUSDT" ∷ "CTSIUSDT" ∷ "HFTUSDT" ∷ "OXTUSDT"
    ∷ "POWRUSDT" ∷ "PERPUSDT" ∷ "RIFUSDT" ∷ "WAXPUSDT" ∷ "ONGUSDT" ∷ "NTRNUSDT" ∷ "HIFIUSDT"
    ∷ "TUSDT" ∷ "BNTUSDT" ∷ "NKNUSDT" ∷ []
