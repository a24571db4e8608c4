-- ===== src/Notifier/Clients/RateLimit.antt =====
-- internal/infrastructure/notify/telegram.go: the interval between messages.
use exchange_data_importer.Prelude.{
  ◌≤◌, String, ◌≡◌, sym, subst, inl, inr, true, false, Option, none, some, List, [], ◌∷◌, arith,
  Bool-cases, Option-cases,
}
use exchange_data_importer.Prelude.Int.{ℤ, ltb_ℤ, leb_ℤ}
use exchange_data_importer.Time.{Time, sub_time}
use exchange_data_importer.Errors.{Error}
use exchange_data_importer.Notifier.Clients.{
  EventData, TelegramNotifier, Answer, post, telegram_send,
}

-- One call of `Send`.
pub record Call : Type 0 where
  pub now : Time
  pub event : EventData
  pub answer : Answer

-- Calls in a row: the times of those that reach the API.
unfoldable pub sent_times : TelegramNotifier → List Call → List Time
sent_times t [] = []
sent_times t (c ∷ rest) =
    let (t', sent, problem) = telegram_send t c.now c.event c.answer in
    let later = sent_times t' rest in elim sent [ none ↦ later | some _ ↦ c.now ∷ later ]

-- A clock that does not go back, from `low` on.
abbrev pub IsForward : Time → List Call → Type 0
IsForward low [] = Unit
IsForward low (c ∷ rest) = (low ≤ c.now) × IsForward c.now rest

-- The times are apart: each is `gap` or more after the one before it, the first after `since`.
abbrev pub AreApart : ℤ → Time → List Time → Type 0
AreApart gap since [] = Unit
AreApart gap since (a ∷ rest) = (leb_ℤ gap (sub_time a since) ≡ true) × AreApart gap a rest

sub_time_back :
    (gap : ℤ) (since last_time now : Time)
    → since ≤ last_time
    → ltb_ℤ (sub_time now last_time) gap ≡ false
    → leb_ℤ gap (sub_time now since) ≡ true
sub_time_back gap since last_time now h e = ground arith

telegram_send_wait :
    (t : TelegramNotifier) (c : Call)
    → ltb_ℤ (sub_time c.now t.last_sent_time) t.interval ≡ true
    → telegram_send t c.now c.event c.answer ≡ (t, none, none)
unfolding telegram_send
telegram_send_wait t c e = rw (e, telegram_send)

telegram_send_go :
    (t : TelegramNotifier) (c : Call)
    → ltb_ℤ (sub_time c.now t.last_sent_time) t.interval ≡ false
    → telegram_send t c.now c.event c.answer
      ≡ (record t { last_sent_time = c.now }, (post c.event c.answer).0, (post c.event c.answer).1)
unfolding telegram_send
telegram_send_go t c e = rw (e, telegram_send)

apart_from :
    (t : TelegramNotifier) (since low : Time) (calls : List Call)
    → since ≤ t.last_sent_time
    → t.last_sent_time ≤ low
    → IsForward low calls
    → AreApart t.interval since (sent_times t calls)
unfolding sent_times
apart_from t since low [] a b fwd = tt
apart_from t since low (c ∷ rest) a b fwd =
    elim (Bool-cases (ltb_ℤ (sub_time c.now t.last_sent_time) t.interval)) [
      | inl wait ↦
          subst after_send (sym (telegram_send_wait t c wait))
            (apart_from t since c.now rest a (omega (arith, fwd.0)) fwd.1)
      | inr go ↦
          subst after_send (sym (telegram_send_go t c go))
            (elim (Option-cases (post c.event c.answer).0) [
              | inl unsent ↦ rw unsent (
                  apart_from (record t { last_sent_time = c.now }) since c.now rest
                    (omega (arith, fwd.0)) (omega arith) fwd.1)
              | inr (sent, e) ↦ rw e (
                sub_time_back t.interval since t.last_sent_time c.now a go,
                apart_from (record t { last_sent_time = c.now }) c.now c.now rest (omega arith)
                    (omega arith) fwd.1,
              )
            ])
    ]
  where
    after_send : TelegramNotifier × Option String × Option Error → Type 0
    after_send o =
        AreApart t.interval since
          (elim o.1 [ none ↦ sent_times o.0 rest | some _ ↦ c.now ∷ sent_times o.0 rest ])

-- On a clock that does not go back, the requests of calls in a row are apart: each is sent the
-- notifier's interval or more after the one before it, and the first after the notifier's last one.
pub sent_times-AreApart :
    (t : TelegramNotifier) (calls : List Call)
    → IsForward t.last_sent_time calls
    → AreApart t.interval t.last_sent_time (sent_times t calls)
sent_times-AreApart t calls fwd =
    apart_from t t.last_sent_time t.last_sent_time calls (omega arith) (omega arith) fwd
