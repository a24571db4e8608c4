-- ===== src/Importer/Stream/Subscribed.antt =====
-- The import of the liquidations of a whole subscription.
use exchange_data_importer.Prelude.{
  ◌+◌, ◌≡◌, ◌≢◌, ◌⊎◌, ap, ◌∙◌, Bool, true, false, Option, none, some, List, [], ◌∷◌, ◌++◌, map,
  map-append, length, All, All-append,
}
use exchange_data_importer.Prelude.Int.{pos}
use exchange_data_importer.Float.{Float}
use exchange_data_importer.Time.{zero_time}
use exchange_data_importer.Errors.{Error, Result}
use exchange_data_importer.Domain.Liquidation.{Liquidation, liquidation_validate-none_iff}
use exchange_data_importer.Exchanges.{ExchangeLiquidation}
use exchange_data_importer.Exchanges.Session.{
  Read, context_done, no_deadline, no_message, message, Attempt,
}
use exchange_data_importer.Exchanges.Session.Delivered.{oks, oks-append}
use exchange_data_importer.Exchanges.Session.Loop.{read_results, problem_results}
use exchange_data_importer.Exchanges.Session.Link.{
  Link, idle, broken, opened, linked_results, linked_problem, subscription_results,
}
use exchange_data_importer.Importer.Liquidations.{
  StreamEvent, Import, convert_liquidation, handle_events, store_in_memory,
}
use exchange_data_importer.Importer.Imported.{valid_ones, handle_events_lem}
use exchange_data_importer.Importer.Stream.{
  AreReceived, IsStorable, domain_of, unstored, valid_ones_received, failures_received,
}

module _ {F : Type 0} (P : ExchangeLiquidation F → Type 0) where
  pub oks-All_append :
      (rs ss : List (Result (ExchangeLiquidation F)))
      → All P (oks rs)
      → All P (oks ss)
      → All P (oks (rs ++ ss))
  oks-All_append rs ss p q = rw oks-append (All-append P (oks rs) (oks ss) p q)

-- What holds of the liquidations of every message holds of those of every subscription.
module _ {F M : Type 0} (P : ExchangeLiquidation F → Type 0)
    (results : M → List (Result (ExchangeLiquidation F)))
    (each : (m : M) → All P (oks (results m))) where
  oks-All_read : (reads : List (Read M)) → All P (oks (read_results results reads))
  oks-All_read [] = tt
  oks-All_read (context_done ∷ rest) = tt
  oks-All_read (no_deadline e ∷ rest) = tt
  oks-All_read (no_message e ∷ rest) = tt
  oks-All_read (message m ∷ rest) = oks-All_append P (results m) _ (each m) (oks-All_read rest)

  oks-All_linked : (l : Link) (reads : List (Read M)) → All P (oks (linked_results results l reads))
  oks-All_linked idle reads = tt
  oks-All_linked (broken e) reads = tt
  oks-All_linked opened reads = oks-All_read reads

  oks-All_problem : (p : Option Error) → All P (oks (problem_results p))
  oks-All_problem none = tt
  oks-All_problem (some e) = tt

  oks-All_subscription :
      (link : Attempt M → Link) (attempts : List (Attempt M))
      → All P (oks (subscription_results link results attempts))
  oks-All_subscription link [] = tt
  oks-All_subscription link (a ∷ rest) =
      oks-All_append P (linked_results results (link a) a.reads) _ (oks-All_linked (link a) a.reads)
        (oks-All_append P (problem_results (linked_problem (link a) a.reads)) _
          (oks-All_problem (linked_problem (link a) a.reads))
          (later (oks-All_subscription link rest) a.ended))
    where
      later :
          All P (oks (subscription_results link results rest))
          → (b : Bool)
          → All P (oks (elim b [ true ↦ [] | false ↦ subscription_results link results rest ]))
      later ih true = tt
      later ih false = ih

module _ {F : Type 0} ⦃f : Float F⦄ where
  -- A liquidation with a name, a time, a price and a quantity.
  pub record IsSane (l : ExchangeLiquidation F) : Type 0 where
    pub symbol : l.symbol ≢ ""
    pub event_at : l.event_at ≢ zero_time
    pub price : f.le l.price (f.lit (pos 0)) ≡ false
    pub quantity : f.le l.quantity (f.lit (pos 0)) ≡ false
    pub product : f.eq (f.mul l.price l.quantity) (f.mul l.price l.quantity) ≡ true

  -- A sane liquidation whose side and total are as every client converts them.
  pub converted-IsStorable :
      (l : ExchangeLiquidation F)
      → (l.side ≡ "BUY") ⊎ (l.side ≡ "SELL")
      → l.total_price ≡ f.mul l.price l.quantity
      → IsSane l
      → IsStorable l
  unfolding convert_liquidation
  converted-IsStorable l side total sane now n =
      (liquidation_validate-none_iff (convert_liquidation l now)).1 (
        sane.event_at,
        n,
        record {
          event_at = sane.event_at;
          symbol = sane.symbol;
          side = side;
          price = sane.price;
          quantity = sane.quantity;
          total_price = rw total sane.product;
        },
      )

  All-apply :
      (ls : List (ExchangeLiquidation F))
      → All (λ l. IsSane l → IsStorable l) ls
      → All IsSane ls
      → All IsStorable ls
  All-apply [] p q = tt
  All-apply (l ∷ rest) p q = (p.0 q.0, All-apply rest p.1 q.1)

  -- What the importer has made of the results of a subscription: all of its liquidations stored, in
  -- order, and all the errors counted that the channel took.
  pub record Stored (s s' : Import (List (Liquidation F)))
      (rs : List (Result (ExchangeLiquidation F))) (taken : List Error) : Type 0 where
    pub repository :
        map unstored s'.repository ≡ map unstored s.repository ++ map domain_of (oks rs)
    pub stream_errors : s'.stream_errors ≡ s.stream_errors + length taken

  pub subscription-Stored :
      {M : Type 0} (link : Attempt M → Link) (results : M → List (Result (ExchangeLiquidation F)))
      → ((m : M) → All (λ l. IsSane l → IsStorable l) (oks (results m)))
      → (attempts : List (Attempt M)) (taken : List Error) (s : Import (List (Liquidation F)))
        (events : List (StreamEvent F))
      → let rs = subscription_results link results attempts in
        All IsSane (oks rs)
        → AreReceived (oks rs) taken events
        → Stored s (handle_events store_in_memory s events) rs taken
  subscription-Stored link results each attempts taken s events sane received =
      let rs = subscription_results link results attempts in
      let storable =
        All-apply (oks rs)
          (oks-All_subscription (λ l. IsSane l → IsStorable l) results each link attempts) sane in
      let (stored, counted) = handle_events_lem s events in
      record {
        repository =
            ap (map unstored) stored
            ∙ (map-append unstored s.repository (valid_ones events)
                ∙ ap (λ l. map unstored s.repository ++ l)
                    (valid_ones_received (oks rs) taken events received storable));
        stream_errors =
            counted
            ∙ ap (λ n. s.stream_errors + n) (failures_received (oks rs) taken events received);
      }
