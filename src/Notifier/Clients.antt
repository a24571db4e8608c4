-- ===== src/Notifier/Clients.antt =====
-- internal/infrastructure/notify: the clients telegram.go, console.go and
-- redis.go.
pub mod RateLimit
use exchange_data_importer.Prelude.{
  ℕ, String, ◌||◌, Option, none, some, str_eq, ◌==◌, if◌then◌else◌,
}
use exchange_data_importer.Prelude.Int.{ℤ, pos, ◌*ℤ◌, ltb_ℤ, leb_ℤ, wrap_int64}
use exchange_data_importer.Time.{Time, zero_time, sub_time, second}
use exchange_data_importer.Errors.{Error, errorf, wrapped, Result, ok, err}

-- `Event.Data`: a text, or some other value.
pub data EventData : Type 0 where
  text : String → EventData
  other : EventData

-- `(n *ConsoleNotifier) Send`: what is printed, and the error.
unfoldable pub console_send : EventData → Option String × Option Error
console_send (text s) = (some s, none)
console_send other = (none, some (errorf "console notifier expects string data, got %T"))

-- `(p *RedisNotifier) Send`, by what json.Marshal gives and the outcome of publishing it: what is
-- published to the channel, and the error.
unfoldable pub redis_send :
    String → Result String → Option Error → Option (String × String) × Option Error
redis_send channel (err e) publish = (none, some (wrapped "marshaling event: %w" e))
redis_send channel (ok json) none = (some (channel, json), none)
redis_send channel (ok json) (some e) =
    (some (channel, json), some (wrapped "publishing to Redis: %w" e))

pub record TelegramNotifier : Type 0 where
  pub bot_token : String
  pub chat_id : String
  pub interval : ℤ
  pub last_sent_time : Time

-- `MinIntervalSeconds`.
abbrev pub min_interval_seconds : ℤ
min_interval_seconds = pos 10

-- `NewTelegramNotifier`. The product with time.Second wraps round as an int64.
unfoldable pub new_telegram_notifier : String → String → ℤ → Result TelegramNotifier
new_telegram_notifier bot_token chat_id interval_seconds =
    if str_eq bot_token "" || str_eq chat_id ""
    then err (errorf "bot token and chat ID are required")
    else ok (record {
      bot_token = bot_token;
      chat_id = chat_id;
      interval = wrap_int64 (
          (if leb_ℤ interval_seconds (pos 0) then min_interval_seconds else interval_seconds)
          *ℤ pos second);
      last_sent_time = zero_time;
    })

-- The answer of the Telegram API to one request: no request, no response, or a status.
pub data Answer : Type 0 where
  no_request : Error → Answer
  no_response : Error → Answer
  status : ℕ → Answer

-- The part of `Send` behind the lock: the request's text and the error.
unfoldable pub post : EventData → Answer → Option String × Option Error
post other answer = (none, some (errorf "telegram notifier expects string data, got %T"))
post (text s) (no_request e) = (none, some (wrapped "creating telegram request: %w" e))
post (text s) (no_response e) = (some s, some (wrapped "sending telegram message: %w" e))
post (text s) (status code) =
    (some s, if code == 200 then none else some (errorf "unexpected status code: %d"))

-- `(t *TelegramNotifier) Send`: the new state, the text that is sent, and the error. Nothing is sent
-- inside the interval.
unfoldable pub telegram_send :
    TelegramNotifier → Time → EventData → Answer → TelegramNotifier × Option String × Option Error
unfolding post
telegram_send t now event answer =
    if ltb_ℤ (sub_time now t.last_sent_time) t.interval
    then (t, none, none)
    else (record t { last_sent_time = now }, (post event answer).0, (post event answer).1)
