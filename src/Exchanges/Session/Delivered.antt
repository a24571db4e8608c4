-- ===== src/Exchanges/Session/Delivered.antt =====
-- internal/infrastructure/exchanges/{bybit,okx,binance}/client.go: what a subscription sends on its
-- two channels, described without the channels.
use exchange_data_importer.Prelude.{
  suc, ◌+◌, ◌-◌, ◌≤◌, ◌≡◌, refl, sym, ap, subst, inl, inr, none, List, [], ◌∷◌, ◌++◌, append-nil,
  append_assoc, arith, if◌then◌else◌, Bool, true, false, ◌∙◌, ◌==◌, ==_iff, Bool-cases, length,
  length-append,
}
use exchange_data_importer.Errors.{Error, Result, ok, err}
use exchange_data_importer.Exchanges.{ExchangeLiquidation}
use exchange_data_importer.Exchanges.Channels.{
  Channels, Backlog, settle, send_error, send_liquidation, send_result, has_room,
}

-- The buffer after an error, which it takes if it has room.
abbrev after_one : Backlog → Backlog
after_one b = if has_room b then record (settle b) { held = suc (settle b).held } else settle b

abbrev keep_if : Bool → Error → List Error → List Error
keep_if true e rest = e ∷ rest
keep_if false e rest = rest

keep_if-append :
    (b : Bool) (e : Error) (xs ys : List Error) → keep_if b e (xs ++ ys) ≡ keep_if b e xs ++ ys
keep_if-append true e xs ys = refl
keep_if-append false e xs ys = refl

-- The errors of a list that find room in the buffer, in order.
abbrev pub accepted : Backlog → List Error → List Error
accepted b [] = []
accepted b (e ∷ rest) = keep_if (has_room b) e (accepted (after_one b) rest)

abbrev pub backlog_after : Backlog → List Error → Backlog
backlog_after b [] = b
backlog_after b (e ∷ rest) = backlog_after (after_one b) rest

accepted-append :
    (b : Backlog) (xs ys : List Error)
    → accepted b (xs ++ ys) ≡ accepted b xs ++ accepted (backlog_after b xs) ys
accepted-append b [] ys = refl
accepted-append b (x ∷ xs) ys =
    ap (keep_if (has_room b) x) (accepted-append (after_one b) xs ys)
    ∙ keep_if-append (has_room b) x (accepted (after_one b) xs)
        (accepted (backlog_after (after_one b) xs) ys)

backlog_after-append :
    (b : Backlog) (xs ys : List Error)
    → backlog_after b (xs ++ ys) ≡ backlog_after (backlog_after b xs) ys
backlog_after-append b [] ys = refl
backlog_after-append b (x ∷ xs) ys = backlog_after-append (after_one b) xs ys

module _ {F : Type 0} where
  -- The liquidations and the errors among the results of a session.
  abbrev pub oks : List (Result (ExchangeLiquidation F)) → List (ExchangeLiquidation F)
  oks [] = []
  oks (ok l ∷ rest) = l ∷ oks rest
  oks (err e ∷ rest) = oks rest

  abbrev pub errs : List (Result (ExchangeLiquidation F)) → List Error
  errs [] = []
  errs (ok l ∷ rest) = errs rest
  errs (err e ∷ rest) = e ∷ errs rest

  pub oks-append :
      (rs ss : List (Result (ExchangeLiquidation F))) → oks (rs ++ ss) ≡ oks rs ++ oks ss
  oks-append [] ss = refl
  oks-append (ok l ∷ rs) ss = rw (oks-append rs ss)
  oks-append (err e ∷ rs) ss = oks-append rs ss

  errs-append :
      (rs ss : List (Result (ExchangeLiquidation F))) → errs (rs ++ ss) ≡ errs rs ++ errs ss
  errs-append [] ss = refl
  errs-append (ok l ∷ rs) ss = errs-append rs ss
  errs-append (err e ∷ rs) ss = rw (errs-append rs ss)

  length-oks_append :
      (rs ss : List (Result (ExchangeLiquidation F)))
      → length (oks (rs ++ ss)) ≡ length (oks rs) + length (oks ss)
  length-oks_append rs ss = rw (oks-append, length-append)

  -- The results that the channels took: every liquidation, and the errors that found room.
  pub record Delivers (c : Channels F) (rs : List (Result (ExchangeLiquidation F)))
      (c' : Channels F) : Type 0 where
    pub sent : c'.out ≡ c.out ++ oks rs
    pub left : c'.room + length (oks rs) ≡ c.room
    pub failed : c'.errs ≡ c.errs ++ accepted c.backlog (errs rs)
    pub backlog : c'.backlog ≡ backlog_after c.backlog (errs rs)

  -- What a session needs of its channels.
  pub record Takes (rs : List (Result (ExchangeLiquidation F))) (c : Channels F) : Type 0 where
    pub enough : length (oks rs) ≤ c.room

  pub Delivers-nil : (c : Channels F) → Takes [] c → Delivers c [] c
  Delivers-nil c h = record {
    sent = sym (append-nil _);
    left = omega arith;
    failed = sym (append-nil _);
    backlog = refl;
  }

  pub Delivers-append :
      {a b c : Channels F} {rs ss : List (Result (ExchangeLiquidation F))}
      → Delivers a rs b
      → Delivers b ss c
      → Delivers a (rs ++ ss) c
  Delivers-append {a} {b} {c} {rs} {ss} h k = record {
    sent = rw (oks-append, k.sent, h.sent) (append_assoc a.out (oks rs) (oks ss));
    left = rw (oks-append, length-append) (omega (arith, h.left, k.left));
    failed =
        rw (errs-append, k.failed, h.failed, h.backlog, accepted-append)
          (append_assoc a.errs (accepted a.backlog (errs rs)) _);
    backlog = rw (errs-append, k.backlog, h.backlog, backlog_after-append) refl;
  }

  pub Takes-left :
      (rs ss : List (Result (ExchangeLiquidation F))) (c : Channels F)
      → Takes (rs ++ ss) c
      → Takes rs c
  Takes-left rs ss c h = record { enough = omega (arith, h.enough, length-oks_append rs ss) }

  pub Takes-right :
      {rs ss : List (Result (ExchangeLiquidation F))} {c c' : Channels F}
      → Takes (rs ++ ss) c
      → Delivers c rs c'
      → Takes ss c'
  Takes-right {rs} {ss} {c} {c'} h d = record {
    enough = omega (arith, h.enough, d.left, length-oks_append rs ss);
  }

  pub send_error-Delivers :
      (c : Channels F) (e : Error) → Takes (err e ∷ []) c → Delivers c (err e ∷ []) (send_error c e)
  unfolding send_error
  send_error-Delivers c e h = record {
    sent = ground (arith, append-nil c.out);
    left = ground arith;
    failed = ground (arith, append-nil c.errs);
    backlog = ground arith;
  }

  pub send_liquidation-Delivers :
      (c : Channels F) (l : ExchangeLiquidation F)
      → Takes (ok l ∷ []) c
      → (c' : Channels F) × (send_liquidation c l ≡ (c', none)) × Delivers c (ok l ∷ []) c'
  unfolding send_liquidation
  send_liquidation-Delivers c l h = elim (Bool-cases (c.room == 0)) [
    | inl none_left ↦ absurd (omega (arith, h.enough, (==_iff _ _).0 none_left))
    | inr some_left ↦ (
      record c { out = c.out ++ l ∷ []; room = c.room - 1 },
      rw some_left,
      record {
        sent = refl;
        left = omega (arith, h.enough);
        failed = sym (append-nil _);
        backlog = refl;
      },
    )
  ]

  pub send_result-Delivers :
      (c : Channels F) (r : Result (ExchangeLiquidation F))
      → Takes (r ∷ []) c
      → Delivers c (r ∷ []) (send_result c r).0
  unfolding send_result
  send_result-Delivers c (ok l) h =
      let (c', e, d) = send_liquidation-Delivers c l h in
      subst (λ o. Delivers c (ok l ∷ []) o.0) (sym e) d
  send_result-Delivers c (err e) h = send_error-Delivers c e h
