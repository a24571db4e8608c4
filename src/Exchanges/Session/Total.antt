-- ===== src/Exchanges/Session/Total.antt =====
-- internal/infrastructure/exchanges/{bybit,okx,binance}/client.go: a subscription whose messages are
-- handled without a panic does not panic, whether or not its connections come to an end.
use exchange_data_importer.Prelude.{
  ◌≡◌, refl, ◌∙◌, inl, inr, Option, some, List, [], ◌∷◌, All, Bool-cases,
}
use exchange_data_importer.Errors.{Error}
use exchange_data_importer.Exchanges.Channels.{Channels}
use exchange_data_importer.Exchanges.Session.{
  Read, context_done, no_deadline, no_message, message, Status, reading, returned, Attempt, running,
  closed, report, read_messages, handle_subscription,
}
use exchange_data_importer.Exchanges.Session.Loop.{AllMessages}
use exchange_data_importer.Exchanges.Session.Link.{Link, idle, broken, opened, follow}

-- A step that does not panic.
abbrev pub Goes : {F A : Type 0} → Option (Channels F × A) → Type 0
Goes {F} {A} out = (c' : Channels F) × (a : A) × (out ≡ some (c', a))

module _ {F M : Type 0} where
  module _ (process : M → Channels F → Option (Channels F × Option Error)) (P : M → Type 0)
      (handles : (m : M) → P m → (c : Channels F) → Goes (process m c)) where
    read_messages-Goes :
        (reads : List (Read M)) (c : Channels F)
        → AllMessages P reads
        → Goes (read_messages process reads c)
    unfolding read_messages
    read_messages-Goes [] c h = (c, reading, refl)
    read_messages-Goes (context_done ∷ rest) c h = (c, _, refl)
    read_messages-Goes (no_deadline e ∷ rest) c h = (c, _, refl)
    read_messages-Goes (no_message e ∷ rest) c h = (c, _, refl)
    read_messages-Goes (message m ∷ rest) c h =
        let (c', problem, e) = handles m h.0 c in
        let (c'', status, e') = read_messages-Goes rest c' h.1 in (c'', status, cc (e, e'))

    follow-Goes :
        (l : Link) (reads : List (Read M)) (c : Channels F)
        → AllMessages P reads
        → Goes (follow process l reads c)
    follow-Goes idle reads c h = (c, _, refl)
    follow-Goes (broken e) reads c h = (c, _, refl)
    follow-Goes opened reads c h = read_messages-Goes reads c h

    module _ (connect : Attempt M → Channels F → Option (Channels F × Status))
        (link : Attempt M → Link)
        (connects : (a : Attempt M) (c : Channels F)
          → connect a c ≡ follow process (link a) a.reads c) where
      pub handle_subscription-Goes :
          (attempts : List (Attempt M)) (c : Channels F)
          → All (λ a. AllMessages P a.reads) attempts
          → Goes (handle_subscription connect attempts c)
      unfolding handle_subscription
      handle_subscription-Goes [] c h = (c, running, refl)
      handle_subscription-Goes (a ∷ rest) c h =
          let (c', status, e) = follow-Goes (link a) a.reads c h.0 in
          next c' status (connects a c ∙ e) (handle_subscription-Goes rest)
        where
          next :
              (c' : Channels F) (status : Status)
              → connect a c ≡ some (c', status)
              → ((k : Channels F)
                  → All (λ b. AllMessages P b.reads) rest
                  → Goes (handle_subscription connect rest k))
              → Goes (handle_subscription connect (a ∷ rest) c)
          next c' reading e ih = (c', running, cc e)
          next c' (returned problem) e ih = elim (Bool-cases a.ended) [
            | inl ended ↦ (report c' problem, closed, cc (e, ended))
            | inr goes_on ↦
                let (last, stage, e') = ih (report c' problem) h.1 in
                (last, stage, cc (e, goes_on, e'))
          ]
