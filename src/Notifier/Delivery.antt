-- ===== src/Notifier/Delivery.antt =====
-- Who is subscribed to what, and in which order the events of a notification are sent.
pub mod Sequence
use exchange_data_importer.Prelude.{
  String, ◌≡◌, refl, ◌≢◌, ◌↔◌, ◌⊎◌, inl, inr, Option, none, some, List, [], ◌∷◌, ◌++◌, arith,
  eq_iff, Option-cases, insert, lookup-insert,
}
use exchange_data_importer.Notifier.{
  market_data_topic, alert_topic, tick_info_topic, validate_topic, Handler, Handlers, handlers_of,
  subscribe,
}

-- The three topics.
abbrev pub IsTopic : String → Type 0
IsTopic t = (t ≡ "MARKET_DATA") ⊎ ((t ≡ "ALERT_MARKET_STATE") ⊎ (t ≡ "TICK_INFO"))

pub validate_topic_iff : (t : String) → (validate_topic t ≡ none) ↔ IsTopic t
unfolding validate_topic
validate_topic_iff t = (
  (λ h. ground (arith, eq_iff t market_data_topic, eq_iff t alert_topic, eq_iff t tick_info_topic)),
  (λ h. ground (arith, eq_iff t market_data_topic, eq_iff t alert_topic, eq_iff t tick_info_topic)),
)

module _ {C S : Type 0} where
  subscribe_topic :
      (hs : Handlers C S) (topic : String) (c : C) (s : S)
      → validate_topic topic ≡ none
      → subscribe hs topic (some c) (some s)
        ≡ insert topic (handlers_of hs topic ++ record { client = c; strategy = s } ∷ []) hs
  unfolding subscribe
  subscribe_topic hs topic c s e = rw (e, subscribe)

  handlers_of-insert_self :
      (hs : Handlers C S) (topic : String) (l : List (Handler C S))
      → handlers_of (insert topic l hs) topic ≡ l
  unfolding handlers_of
  handlers_of-insert_self hs topic l =
      ground (arith, lookup-insert topic topic l hs, eq_iff topic topic)

  handlers_of-insert_ne :
      (hs : Handlers C S) (topic other : String) (l : List (Handler C S))
      → other ≢ topic
      → handlers_of (insert topic l hs) other ≡ handlers_of hs other
  unfolding handlers_of
  handlers_of-insert_ne hs topic other l ne =
      ground (arith, lookup-insert topic other l hs, eq_iff topic other)

  -- A subscription of a client and a strategy to one of the three topics adds them as the last
  -- handler of that topic, and leaves the handlers of every other topic as they are.
  pub handlers_of-subscribe :
      (hs : Handlers C S) (topic other : String) (c : C) (s : S)
      → IsTopic topic
      → (handlers_of (subscribe hs topic (some c) (some s)) topic
          ≡ handlers_of hs topic ++ record { client = c; strategy = s } ∷ [])
        × (other ≢ topic
            → handlers_of (subscribe hs topic (some c) (some s)) other ≡ handlers_of hs other)
  handlers_of-subscribe hs topic other c s h =
      let now : List (Handler C S) =
        handlers_of hs topic ++ record { client = c; strategy = s } ∷ [] in
      rw (subscribe_topic hs topic c s ((validate_topic_iff topic).1 h))
        (handlers_of-insert_self hs topic now, (λ ne. handlers_of-insert_ne hs topic other now ne))

  -- Any other subscription changes nothing: to another topic, or of a nil client or strategy.
  pub subscribe_refused :
      (hs : Handlers C S) (topic : String) (c : Option C) (s : Option S)
      → ¬ IsTopic topic ⊎ ((c ≡ none) ⊎ (s ≡ none))
      → subscribe hs topic c s ≡ hs
  unfolding subscribe
  subscribe_refused hs topic none s h = refl
  subscribe_refused hs topic (some c) none h = refl
  subscribe_refused hs topic (some c) (some s) (inr (inl e)) = cc
  subscribe_refused hs topic (some c) (some s) (inr (inr e)) = cc
  subscribe_refused hs topic (some c) (some s) (inl bad) =
      elim (Option-cases (validate_topic topic)) [
        | inl e ↦ absurd (bad ((validate_topic_iff topic).0 e))
        | inr (x, e) ↦ rw (e, subscribe)
      ]
