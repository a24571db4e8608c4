-- ===== src/Exchanges/Session/Loop.antt =====
-- internal/infrastructure/exchanges/{bybit,okx,binance}/client.go: the loops of readMessages and
-- handleLiquidationSubscription, over what the connections and the context gave.
use exchange_data_importer.Prelude.{
  ◌≡◌, refl, sym, subst, inl, inr, Bool, true, false, Option, none, some, List, [], ◌∷◌, ◌++◌,
  if◌then◌else◌, Bool-cases, any_of, All,
}
use exchange_data_importer.Errors.{Error, wrapped, Result, err}
use exchange_data_importer.Exchanges.{ExchangeLiquidation}
use exchange_data_importer.Exchanges.Channels.{Channels}
use exchange_data_importer.Exchanges.Session.{
  Read, context_done, no_deadline, no_message, message, Status, returned, Attempt, Stage, running,
  closed, report, read_messages, handle_subscription,
}
use exchange_data_importer.Exchanges.Session.Delivered.{
  Delivers, Takes, Delivers-nil, Delivers-append, Takes-left, Takes-right, send_error-Delivers,
}

-- What one connection does, by its reads: `results` are those of a message.
module _ {F M : Type 0} (results : M → List (Result (ExchangeLiquidation F))) where
  -- The results of the messages read before the connection ends.
  abbrev pub read_results : List (Read M) → List (Result (ExchangeLiquidation F))
  read_results [] = []
  read_results (context_done ∷ rest) = []
  read_results (no_deadline e ∷ rest) = []
  read_results (no_message e ∷ rest) = []
  read_results (message m ∷ rest) = results m ++ read_results rest

module _ {M : Type 0} where
  -- The error with which a connection ends.
  abbrev pub read_problem : List (Read M) → Option Error
  read_problem [] = none
  read_problem (context_done ∷ rest) = none
  read_problem (no_deadline e ∷ rest) = some (wrapped "setting read deadline: %w" e)
  read_problem (no_message e ∷ rest) = some (wrapped "reading message: %w" e)
  read_problem (message m ∷ rest) = read_problem rest

  -- A read after which the connection is closed.
  abbrev pub HasEnd : List (Read M) → Type 0
  HasEnd [] = ⊥
  HasEnd (context_done ∷ rest) = Unit
  HasEnd (no_deadline e ∷ rest) = Unit
  HasEnd (no_message e ∷ rest) = Unit
  HasEnd (message m ∷ rest) = HasEnd rest

  abbrev pub AllMessages : (M → Type 0) → List (Read M) → Type 0
  AllMessages P [] = Unit
  AllMessages P (message m ∷ rest) = P m × AllMessages P rest
  AllMessages P (context_done ∷ rest) = Unit
  AllMessages P (no_deadline e ∷ rest) = Unit
  AllMessages P (no_message e ∷ rest) = Unit

module _ {F : Type 0} where
  -- A step of the client that sends exactly these results.
  abbrev pub Sends :
      {A : Type 0}
      → (Channels F → Option (Channels F × A))
      → List (Result (ExchangeLiquidation F))
      → Channels F
      → Type 0
  Sends {A} step rs c = (c' : Channels F) × (a : A) × (step c ≡ some (c', a)) × Delivers c rs c'

  abbrev pub Returns :
      (Channels F → Option (Channels F × Status))
      → List (Result (ExchangeLiquidation F))
      → Option Error
      → Channels F
      → Type 0
  Returns step rs problem c =
      (c' : Channels F) × (step c ≡ some (c', returned problem)) × Delivers c rs c'

module _ {F : Type 0} where
  -- An error that ends a connection is sent, with its text.
  abbrev pub problem_results : Option Error → List (Result (ExchangeLiquidation F))
  problem_results none = []
  problem_results (some e) = err (wrapped "websocket error: %w" e) ∷ []

-- What a subscription sends: the results of each connection, and then the error that ended it.
module _ {F M : Type 0} (results : Attempt M → List (Result (ExchangeLiquidation F)))
    (problem : Attempt M → Option Error) where
  abbrev pub session_results : List (Attempt M) → List (Result (ExchangeLiquidation F))
  session_results [] = []
  session_results (a ∷ rest) =
      results a
      ++ (problem_results (problem a) ++ elim a.ended [ true ↦ [] | false ↦ session_results rest ])

-- The channels are closed by the first attempt after which the context has ended.
abbrev pub stage_of : {M : Type 0} → List (Attempt M) → Stage
stage_of attempts = if any_of (λ a. a.ended) attempts then closed else running

module _ {F : Type 0} where
  report-Delivers :
      (p : Option Error) (c : Channels F)
      → Takes (problem_results p) c
      → Delivers c (problem_results p) (report c p)
  unfolding report
  report-Delivers none c t = Delivers-nil c t
  report-Delivers (some e) c t = send_error-Delivers c _ t

module _ {F M : Type 0} where
  module _ (process : M → Channels F → Option (Channels F × Option Error))
      (results : M → List (Result (ExchangeLiquidation F))) (P : M → Type 0)
      (handles : (m : M)
        → P m
        → (c : Channels F) → Takes (results m) c
        → Sends (process m) (results m) c) where
    pub read_messages-Returns :
        (reads : List (Read M)) (c : Channels F)
        → HasEnd reads
        → AllMessages P reads
        → Takes (read_results results reads) c
        → Returns (read_messages process reads) (read_results results reads) (read_problem reads) c
    unfolding read_messages
    read_messages-Returns [] c h p t = absurd h
    read_messages-Returns (context_done ∷ rest) c h p t = (c, refl, Delivers-nil c t)
    read_messages-Returns (no_deadline e ∷ rest) c h p t = (c, refl, Delivers-nil c t)
    read_messages-Returns (no_message e ∷ rest) c h p t = (c, refl, Delivers-nil c t)
    read_messages-Returns (message m ∷ rest) c h p t =
        let (c', problem, e, d) = handles m p.0 c (Takes-left (results m) _ c t) in
        let (c'', e', d') = read_messages-Returns rest c' h p.1 (Takes-right t d) in
        (c'', rw (e, e'), Delivers-append d d')

  module _ (connect : Attempt M → Channels F → Option (Channels F × Status))
      (results : Attempt M → List (Result (ExchangeLiquidation F)))
      (problem : Attempt M → Option Error) where
    handle_subscription-ended :
        (a : Attempt M) (rest : List (Attempt M)) (c c' : Channels F) (p : Option Error)
        → connect a c ≡ some (c', returned p)
        → a.ended ≡ true
        → handle_subscription connect (a ∷ rest) c ≡ some (report c' p, stage_of (a ∷ rest))
    unfolding handle_subscription
    handle_subscription-ended a rest c c' p e b = cc (e, b)

    handle_subscription-again :
        (a : Attempt M) (rest : List (Attempt M)) (c c' last : Channels F) (p : Option Error)
        → connect a c ≡ some (c', returned p)
        → a.ended ≡ false
        → handle_subscription connect rest (report c' p) ≡ some (last, stage_of rest)
        → handle_subscription connect (a ∷ rest) c ≡ some (last, stage_of (a ∷ rest))
    unfolding handle_subscription
    handle_subscription-again a rest c c' last p e b e' = cc (e, b, e')

    module _ (P : Attempt M → Type 0)
        (connects : (a : Attempt M)
          → P a
          → (c : Channels F) → Takes (results a) c
          → Returns (connect a) (results a) (problem a) c) where
      pub handle_subscription-Sends :
          (attempts : List (Attempt M)) (c : Channels F)
          → All P attempts
          → Takes (session_results results problem attempts) c
          → (c' : Channels F) × (handle_subscription connect attempts c
              ≡ some (c', stage_of attempts))
            × Delivers c (session_results results problem attempts) c'
      unfolding handle_subscription
      handle_subscription-Sends [] c p t = (c, refl, Delivers-nil c t)
      handle_subscription-Sends (a ∷ rest) c p t =
          let (c', e, d) = connects a p.0 c (Takes-left (results a) _ c t) in
          let t' = Takes-right t d in
          let d' =
            report-Delivers (problem a) c' (Takes-left (problem_results (problem a)) _ c' t') in
          let r = report c' (problem a) in
          let after : Bool → List (Result (ExchangeLiquidation F)) =
            λ b. elim b [ true ↦ [] | false ↦ session_results results problem rest ] in
          let t'' : Takes (after a.ended) r = Takes-right t' d' in
          let all : Bool → Channels F → Type 0 =
            λ b l. Delivers c (results a ++ (problem_results (problem a) ++ after b)) l in
          elim (Bool-cases a.ended) [
            | inl b ↦
                let d'' = Delivers-nil r (subst (λ x. Takes (after x) r) b t'') in
                (
                  r,
                  handle_subscription-ended a rest c c' _ e b,
                  subst (λ x. all x r) (sym b) (Delivers-append d (Delivers-append d' d'')),
                )
            | inr b ↦
                let (last, e', d'') =
                  handle_subscription-Sends rest r p.1 (subst (λ x. Takes (after x) r) b t'') in
                (
                  last,
                  handle_subscription-again a rest c c' last _ e b e',
                  subst (λ x. all x last) (sym b) (Delivers-append d (Delivers-append d' d'')),
                )
          ]
