-- ===== src/Bootstrap/App/Subscribed.antt =====
-- internal/bootstrap/app.go: which handlers the start of an application leaves.
use exchange_data_importer.Prelude.{
  String, ◌≡◌, ◌⊎◌, refl, sym, ap, ◌∙◌, subst, inl, inr, some, List, [], ◌∷◌, ◌++◌, map, ◌≢◌,
  append-nil, append_assoc, str_eq, eq_iff, Bool-cases, Option-cases, lookup, keep, keep-cons_true,
  keep-cons_false, Bool, Option, ◌*◌, All,
}
use exchange_data_importer.Float.{Float}
use exchange_data_importer.Time.{Time, back, minute}
use exchange_data_importer.Errors.{Result, ok}
use exchange_data_importer.Notifier.{Handler, Handlers, handlers_of, validate_topic}
use exchange_data_importer.Notifier.Delivery.{
  IsTopic, validate_topic_iff, handlers_of-subscribe, subscribe_refused,
}
use exchange_data_importer.Bootstrap.Builder.{Client, Strategy, NotifierConfig, Builder}
use exchange_data_importer.Bootstrap.App.{with_notifier, add_notifiers, start_app}
use exchange_data_importer.Importer.Tick.{State, Effect}
use exchange_data_importer.Importer.Tick.Round.{IsState}
use exchange_data_importer.Importer.Start.{StoredTick, Turn, Progress, wrap_progress}
use exchange_data_importer.Importer.Start.Restored.{HasTickers}
use exchange_data_importer.Importer.Start.Runs.{AreRounds, course, start-Ran}

abbrev pub handler_of : NotifierConfig → Handler Client Strategy
handler_of n = record { client = n.client; strategy = n.strategy }

-- The configured notifiers of a topic, in order.
abbrev pub for_topic : String → List NotifierConfig → List NotifierConfig
for_topic topic ns = keep (λ n. str_eq n.topic topic) ns

with_notifier_self :
    (hs : Handlers Client Strategy) (n : NotifierConfig)
    → IsTopic n.topic
    → handlers_of (with_notifier hs n) n.topic ≡ handlers_of hs n.topic ++ handler_of n ∷ []
unfolding with_notifier
with_notifier_self hs n h = (handlers_of-subscribe hs n.topic n.topic n.client n.strategy h).0

with_notifier_other :
    (hs : Handlers Client Strategy) (n : NotifierConfig) (topic : String)
    → topic ≢ n.topic ⊎ ¬ IsTopic n.topic
    → handlers_of (with_notifier hs n) topic ≡ handlers_of hs topic
unfolding with_notifier
with_notifier_other hs n topic (inr bad) =
    ap (λ x. handlers_of x topic)
      (subscribe_refused hs n.topic (some n.client) (some n.strategy) (inl bad))
with_notifier_other hs n topic (inl other) = elim (Option-cases (validate_topic n.topic)) [
  | inl e ↦
      (handlers_of-subscribe hs n.topic topic n.client n.strategy
          ((validate_topic_iff n.topic).0 e)).1
        other
  | inr (x, e) ↦
      ap (λ y. handlers_of y topic)
        (subscribe_refused hs n.topic (some n.client) (some n.strategy)
          (inl (λ t. absurd (cc (e, (validate_topic_iff n.topic).1 t)))))
]

add_notifiers_topic :
    (hs : Handlers Client Strategy) (ns : List NotifierConfig) (topic : String)
    → IsTopic topic
    → handlers_of (add_notifiers hs ns) topic
      ≡ handlers_of hs topic ++ map handler_of (for_topic topic ns)
unfolding add_notifiers
add_notifiers_topic hs [] topic h = sym (append-nil _)
add_notifiers_topic hs (n ∷ rest) topic h =
    let base = handlers_of hs topic in
    let others = map handler_of (for_topic topic rest) in
    let ih = add_notifiers_topic (with_notifier hs n) rest topic h in
    elim (Bool-cases (str_eq n.topic topic)) [
      | inl e ↦
          let same : n.topic ≡ topic = (eq_iff n.topic topic).0 e in
          let now : handlers_of (with_notifier hs n) topic ≡ base ++ handler_of n ∷ [] =
            subst (λ t. handlers_of (with_notifier hs n) t ≡ handlers_of hs t ++ handler_of n ∷ [])
              same (with_notifier_self hs n (subst IsTopic (sym same) h)) in
          ih
          ∙ (ap (λ l. l ++ others) now
              ∙ (append_assoc base (handler_of n ∷ []) others
                  ∙ ap (λ l. base ++ map handler_of l) (sym (keep-cons_true _ n rest e))))
      | inr e ↦
          let other : topic ≢ n.topic =
            λ same. absurd (cc (e, (eq_iff n.topic topic).1 (sym same))) in
          ih
          ∙ (ap (λ l. l ++ others) (with_notifier_other hs n topic (inl other))
              ∙ ap (λ l. base ++ map handler_of l) (sym (keep-cons_false _ n rest e)))
    ]

add_notifiers_other :
    (hs : Handlers Client Strategy) (ns : List NotifierConfig) (topic : String)
    → ¬ IsTopic topic
    → handlers_of (add_notifiers hs ns) topic ≡ handlers_of hs topic
unfolding add_notifiers
add_notifiers_other hs [] topic h = refl
add_notifiers_other hs (n ∷ rest) topic h = elim (Bool-cases (str_eq n.topic topic)) [
  | inl e ↦
      let same : n.topic ≡ topic = (eq_iff n.topic topic).0 e in
      add_notifiers_other (with_notifier hs n) rest topic h
      ∙ with_notifier_other hs n topic (inr (λ t. h (subst IsTopic same t)))
  | inr e ↦
      add_notifiers_other (with_notifier hs n) rest topic h
      ∙ with_notifier_other hs n topic
          (inl (λ same. absurd (cc (e, (eq_iff n.topic topic).1 (sym same)))))
]

module _ {F : Type 0} ⦃f : Float F⦄ where
  -- What a started application does: who is subscribed to what, and how its import goes.
  pub record Started (b : Builder) (c : Progress × List (Turn F))
      (out : Option (Handlers Client Strategy × State F × Progress × List (Effect F)))
      : Type 0 where
    pub handlers : Handlers Client Strategy
    pub state : State F
    pub effects : List (Effect F)
    pub result : out ≡ some (handlers, state, wrap_progress "starting import loop: %w" c.0, effects)
    pub subscribed :
        (topic : String)
        → IsTopic topic
        → handlers_of handlers topic ≡ map handler_of (for_topic topic b.notifiers)
    pub no_others : (topic : String) → ¬ IsTopic topic → handlers_of handlers topic ≡ []
    pub valid : IsState state
    pub rounds : AreRounds c.1 effects

  -- `App.Start` never panics over an importer whose state satisfies its invariant, where no tick
  -- that the repository answers with has a nil ticker. It subscribes, for each of the three topics,
  -- exactly the notifiers that were configured for it, in their order, and nobody to another topic;
  -- and then it runs the import until that stops, with the import's error.
  pub start_app-Started :
      (b : Builder) (subscribed : Bool) (get_history_since : Time → Result (List (StoredTick F)))
      (now : Time) (s : State F) (turns : List (Turn F))
      → IsState s
      → ((history : List (StoredTick F))
          → get_history_since (back now (25 * minute)) ≡ ok history
          → All HasTickers history)
      → Started b
          (course subscribed (get_history_since (back now (25 * minute))) turns)
          (start_app b subscribed get_history_since now s turns)
  unfolding start_app handlers_of lookup
  start_app-Started b subscribed get now s turns i there =
      let r = start-Ran subscribed get now s turns i there in
      record {
        handlers = add_notifiers [] b.notifiers;
        state = r.state;
        effects = r.effects;
        result = cc r.result;
        subscribed = λ topic h. add_notifiers_topic [] b.notifiers topic h;
        no_others = λ topic h. add_notifiers_other [] b.notifiers topic h;
        valid = r.valid;
        rounds = r.rounds;
      }
