-- ===== src/Importer/Minutes.antt =====
-- One entry for each minute: the invariant of the ticker buffers.
use mathlib.Core.Path.{fun_ext}
use mathlib.Core.List.{map-append}
use native.Mathlib.Decide.{ℕ_discrete}
use exchange_data_importer.Prelude.{
  ℕ, ◌<◌, String, ◌≡◌, refl, ap, ◌∙◌, subst, inl, inr, Option, none, some, List, [], ◌∷◌, ◌++◌, map,
  str_eq, ltb, Bool-cases, length, get_elem?, set, drop, last?, All, All-append, length-set,
  get_elem?-set_ne, get_elem?-set-some, All-drop, map-drop, last?-map, last?-drop, lookup, insert,
  lookup-insert,
}
use exchange_data_importer.Time.{truncate, minute}
use exchange_data_importer.Ring.{Ring, push}
use exchange_data_importer.Ring.Inv.{capacity-push}
use exchange_data_importer.Ring.Refine.{Holds, push_list, push-Holds}
use exchange_data_importer.Domain.Ticker.{Ticker, Heap}
use exchange_data_importer.Importer.History.{TickerHistory}

abbrev pub IsIncreasing : List ℕ → Type 0
IsIncreasing [] = Unit
IsIncreasing (a ∷ []) = Unit
IsIncreasing (a ∷ b ∷ rest) = (a < b) × IsIncreasing (b ∷ rest)

IsIncreasing-append :
    (xs : List ℕ) (b : ℕ)
    → IsIncreasing xs
    → ((a : ℕ) → last? xs ≡ some a → a < b)
    → IsIncreasing (xs ++ b ∷ [])
IsIncreasing-append [] b h l = tt
IsIncreasing-append (x ∷ []) b h l = (l x refl, tt)
IsIncreasing-append (x ∷ y ∷ ys) b h l = (h.0, IsIncreasing-append (y ∷ ys) b h.1 l)

IsIncreasing-drop : (xs : List ℕ) → IsIncreasing xs → IsIncreasing (drop 1 xs)
IsIncreasing-drop [] h = tt
IsIncreasing-drop (x ∷ []) h = tt
IsIncreasing-drop (x ∷ y ∷ ys) h = h.1

extend :
    (g : ℕ → ℕ) (xs : List ℕ) (p : ℕ)
    → IsIncreasing (map g xs)
    → ((q : ℕ) → last? xs ≡ some q → g q < g p)
    → IsIncreasing (map g (xs ++ p ∷ []))
extend g xs p h later = rw map-append (
    IsIncreasing-append (map g xs) (g p) h
      λ a e. let (q, e1, e2) = last?-map g xs e in rw (← e2) (later q e1))

module _ {F : Type 0} where
  -- The minute in which the ticker at an address was created.
  abbrev pub minute_of : Option (Ticker F) → ℕ
  minute_of none = 0
  minute_of (some t) = truncate t.created_at minute

  abbrev pub minute_at : Heap F → ℕ → ℕ
  minute_at h p = minute_of (get_elem? h p)

  -- A buffer of the map: a valid ring of 25 live addresses, whose minutes strictly increase.
  pub record IsBuffer (h : Heap F) (r : Ring ℕ) : Type 0 where
    pub items : List ℕ
    pub holds : Holds r items
    pub room : r.capacity ≡ 25
    pub live : All (λ p. p < length h) items
    pub increasing : IsIncreasing (map (minute_at h) items)

  pub record IsHistory (h : Heap F) (m : TickerHistory) : Type 0 where
    pub buffer : (name : String) (r : Ring ℕ) → lookup name m ≡ some r → IsBuffer h r

  pub IsHistory-insert :
      (h : Heap F) (m : TickerHistory) (k : String) (r : Ring ℕ)
      → IsHistory h m
      → IsBuffer h r
      → IsHistory h (insert k r m)
  IsHistory-insert h m k r i b = record {
    buffer = λ name r' e. elim (Bool-cases (str_eq k name)) [
      | inl same ↦ subst (IsBuffer h) (cc (lookup-insert k name r m, same)) b
      | inr other ↦ i.buffer name r' (cc (lookup-insert k name r m, other))
    ];
  }

  -- A change of the heap that keeps every ticker's minute.
  pub record SameMinutes (h h' : Heap F) : Type 0 where
    pub size : length h' ≡ length h
    pub same : (p : ℕ) → minute_at h' p ≡ minute_at h p

  IsBuffer-SameMinutes :
      (h h' : Heap F) (r : Ring ℕ) → SameMinutes h h' → IsBuffer h r → IsBuffer h' r
  IsBuffer-SameMinutes h h' r s b = record {
    items = b.items;
    holds = b.holds;
    room = b.room;
    live = rw s.size b.live;
    increasing = rw (fun_ext s.same) b.increasing;
  }

  pub IsHistory-SameMinutes :
      (h h' : Heap F) (m : TickerHistory) → SameMinutes h h' → IsHistory h m → IsHistory h' m
  IsHistory-SameMinutes h h' m s i = record {
    buffer = λ name r e. IsBuffer-SameMinutes h h' r s (i.buffer name r e);
  }

  pub set-SameMinutes :
      (h : Heap F) (p : ℕ) (t t' : Ticker F)
      → get_elem? h p ≡ some t
      → truncate t'.created_at minute ≡ truncate t.created_at minute
      → SameMinutes h (set h p t')
  set-SameMinutes h p t t' e s = record {
    size = length-set h p t';
    same = λ q. elim (ℕ_discrete p q) [
      | yes here ↦ rw (← here, get_elem?-set-some h p t' e, e) s
      | no there ↦ ap minute_of (get_elem?-set_ne h t' there)
    ];
  }

  pub SameMinutes-trans :
      (h1 h2 h3 : Heap F) → SameMinutes h1 h2 → SameMinutes h2 h3 → SameMinutes h1 h3
  SameMinutes-trans h1 h2 h3 a b = record {
    size = b.size ∙ a.size;
    same = λ p. b.same p ∙ a.same p;
  }

  -- Pushing an address whose minute is later than the newest entry's.
  pub push-IsBuffer :
      (h : Heap F) (r : Ring ℕ) (p : ℕ) (b : IsBuffer h r)
      → p < length h
      → ((q : ℕ) → last? b.items ≡ some q → minute_at h q < minute_at h p)
      → (r' : Ring ℕ) × (push r p ≡ some r') × IsBuffer h r'
  push-IsBuffer h r p b lp later =
      let (r', e, holds) = push-Holds r b.items p b.holds in
      (
        r',
        e,
        record {
          items = push_list r.capacity b.items p;
          holds = holds;
          room = capacity-push r p r' e ∙ b.room;
          live = elim (Bool-cases (ltb (length b.items) r.capacity)) [
            | inl s ↦ rw s (All-append (λ q. q < length h) b.items (p ∷ []) b.live (lp, tt))
            | inr s ↦ rw s (
                All-append (λ q. q < length h) (drop 1 b.items) (p ∷ [])
                  (All-drop (λ q. q < length h) b.items b.live) (lp, tt))
          ];
          increasing = elim (Bool-cases (ltb (length b.items) r.capacity)) [
            | inl s ↦ rw s (extend (minute_at h) b.items p b.increasing later)
            | inr s ↦ rw s (
                extend (minute_at h) (drop 1 b.items) p
                  (rw map-drop (IsIncreasing-drop (map (minute_at h) b.items) b.increasing))
                  (λ q l. later q (last?-drop b.items l)))
          ];
        },
      )
