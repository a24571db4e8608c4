-- ===== src/Exchanges/Session/Link.antt =====
-- internal/infrastructure/exchanges/{bybit,okx,binance}/client.go: connectAndHandle, by what became of
-- the connection before the first read.
use exchange_data_importer.Prelude.{◌≡◌, refl, ◌∙◌, Option, none, some, List, [], All}
use exchange_data_importer.Errors.{Error, Result}
use exchange_data_importer.Exchanges.{ExchangeLiquidation}
use exchange_data_importer.Exchanges.Channels.{Channels}
use exchange_data_importer.Exchanges.Session.{
  Read, Status, returned, Attempt, read_messages, handle_subscription,
}
use exchange_data_importer.Exchanges.Session.Delivered.{Delivers, Takes, Delivers-nil}
use exchange_data_importer.Exchanges.Session.Loop.{
  read_results, read_problem, HasEnd, AllMessages, Sends, Returns, read_messages-Returns,
  session_results, stage_of, handle_subscription-Sends,
}

-- Nothing to subscribe to, or an error, or a connection to read from.
pub data Link : Type 0 where
  idle : Link
  broken : Error → Link
  opened : Link

module _ {F M : Type 0} (process : M → Channels F → Option (Channels F × Option Error)) where
  abbrev pub follow : Link → List (Read M) → Channels F → Option (Channels F × Status)
  follow idle reads c = some (c, returned none)
  follow (broken e) reads c = some (c, returned (some e))
  follow opened reads c = read_messages process reads c

abbrev pub linked_results :
    {F M : Type 0}
    → (M → List (Result (ExchangeLiquidation F)))
    → Link
    → List (Read M)
    → List (Result (ExchangeLiquidation F))
linked_results results opened reads = read_results results reads
linked_results results _ reads = []

abbrev pub linked_problem : {M : Type 0} → Link → List (Read M) → Option Error
linked_problem idle reads = none
linked_problem (broken e) reads = some e
linked_problem opened reads = read_problem reads

module _ {M : Type 0} (link : Attempt M → Link) where
  -- A connection that is read from comes to its end, by messages that the client can take.
  abbrev pub Finishes : (M → Type 0) → Attempt M → Type 0
  Finishes P a = link a ≡ opened → HasEnd a.reads × AllMessages P a.reads

module _ {F M : Type 0} (link : Attempt M → Link)
    (results : M → List (Result (ExchangeLiquidation F))) where
  -- What a subscription sends, in order: the results of the messages of each connection, and then the
  -- error that ended it.
  abbrev pub subscription_results : List (Attempt M) → List (Result (ExchangeLiquidation F))
  subscription_results =
      session_results (λ a. linked_results results (link a) a.reads)
        (λ a. linked_problem (link a) a.reads)

module _ {F M : Type 0} (connect : Attempt M → Channels F → Option (Channels F × Status))
    (process : M → Channels F → Option (Channels F × Option Error)) (link : Attempt M → Link)
    (results : M → List (Result (ExchangeLiquidation F))) (P : M → Type 0)
    (handles : (m : M)
      → P m
      → (c : Channels F) → Takes (results m) c
      → Sends (process m) (results m) c)
    (connects : (a : Attempt M) (c : Channels F)
      → connect a c ≡ follow process (link a) a.reads c) where
  follow-Returns :
      (l : Link) (reads : List (Read M)) (c : Channels F)
      → (l ≡ opened → HasEnd reads × AllMessages P reads)
      → Takes (linked_results results l reads) c
      → Returns (follow process l reads) (linked_results results l reads) (linked_problem l reads) c
  follow-Returns idle reads c h t = (c, refl, Delivers-nil c t)
  follow-Returns (broken e) reads c h t = (c, refl, Delivers-nil c t)
  follow-Returns opened reads c h t =
      let (ends, messages) = h refl in
      read_messages-Returns process results P handles reads c ends messages t

  -- A client whose connections come to their end sends the results of all of them in order, and closes
  -- its channels exactly if the context has ended after one.
  pub subscription-Sends :
      (attempts : List (Attempt M)) (c : Channels F)
      → All (Finishes link P) attempts
      → Takes (subscription_results link results attempts) c
      → (c' : Channels F) × (handle_subscription connect attempts c ≡ some (c', stage_of attempts))
        × Delivers c (subscription_results link results attempts) c'
  subscription-Sends = handle_subscription-Sends connect _ _ (Finishes link P) (λ a p c t.
      let (c', e, d) = follow-Returns (link a) a.reads c p t in (c', connects a c ∙ e, d))
