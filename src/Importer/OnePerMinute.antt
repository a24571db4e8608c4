-- ===== src/Importer/OnePerMinute.antt =====
-- `UpdateTicker` in internal/importer/history_structs.go, over the invariant of the ticker buffers.
use exchange_data_importer.Prelude.{
  ℕ, ◌≤◌, ◌<◌, String, ◌≡◌, refl, sym, subst, ◌≢◌, inl, inr, false, Option, none, some, [], arith,
  ==_iff, tests, Bool-cases, Option-cases, length, get_elem?, set, last?, lt-length_of_some,
  some_of_lt-length, All-last?, lookup, insert,
}
use exchange_data_importer.Prelude.Partial.{◌>>=◌}
use exchange_data_importer.Float.{Float}
use exchange_data_importer.Time.{Time, after, same_time, truncate, minute}
use exchange_data_importer.Ring.{Ring}
use exchange_data_importer.Ring.Refine.{new-Holds, last-Holds}
use exchange_data_importer.Ring.Inv.{capacity-new}
use exchange_data_importer.Domain.Ticker.{Ticker, Heap}
use exchange_data_importer.Importer.History.{
  TickerHistory, new_buffer, get_or_create_buffer, update_minute_data, merge, mirror, update_old,
  new_minute, update_last, update_ticker,
}
use exchange_data_importer.Importer.Minutes.{
  minute_at, IsBuffer, IsHistory, SameMinutes, IsHistory-insert, IsHistory-SameMinutes,
  set-SameMinutes, SameMinutes-trans, push-IsBuffer,
}

-- A time that is not before another and lies in another minute lies in a later one.
later_minute :
    (a b : Time)
    → after a b ≡ false
    → same_time (truncate a minute) (truncate b minute) ≡ false
    → truncate a minute < truncate b minute
later_minute a b h k =
    let le : a ≤ b = omega tests in
    let ne : truncate a minute ≢ truncate b minute = ground arith in omega arith

module _ {F : Type 0} ⦃f : Float F⦄ where
  -- What a step leaves behind: a result, with the invariant, over a heap of the same minutes.
  pub record Kept (h : Heap F) (out : Option (Heap F × TickerHistory)) : Type 0 where
    pub heap : Heap F
    pub history : TickerHistory
    pub result : out ≡ some (heap, history)
    pub minutes : SameMinutes h heap
    pub valid : IsHistory heap history

  new_buffer-IsBuffer : (h : Heap F) → IsBuffer h new_buffer
  unfolding new_buffer
  new_buffer-IsBuffer h = record {
    items = [];
    holds = new-Holds 25 0 (omega arith);
    room = capacity-new 25 0;
    live = tt;
    increasing = tt;
  }

  new_minute-Kept :
      (h : Heap F) (m : TickerHistory) (r : Ring ℕ) (p : ℕ) (t : Ticker F)
      → IsHistory h m
      → (b : IsBuffer h r) → get_elem? h p ≡ some t
      → ((q : ℕ) → last? b.items ≡ some q → minute_at h q < minute_at h p)
      → Kept h (new_minute h m r p t)
  unfolding new_minute
  new_minute-Kept h m r p t i b e later =
      let (r', pushed, b') = push-IsBuffer h r p b (lt-length_of_some h p e) later in
      let t' : Ticker F = record t { max = t.ask; min = t.ask } in
      let s = set-SameMinutes h p t t' e refl in
      record {
        heap = set h p t';
        history = insert t.symbol r' m;
        result = rw (pushed, new_minute);
        minutes = s;
        valid =
            IsHistory-SameMinutes h (set h p t') (insert t.symbol r' m) s
              (IsHistory-insert h m t.symbol r' i b');
      }

  created_at-merge :
      (old t : Ticker F)
      → truncate old.created_at minute ≡ truncate t.created_at minute
      → truncate (merge old t).created_at minute ≡ truncate old.created_at minute
  unfolding merge
  created_at-merge old t s = sym s

  created_at-mirror :
      (t merged : Ticker F)
      → truncate (mirror t merged).created_at minute ≡ truncate t.created_at minute
  unfolding mirror
  created_at-mirror t merged = refl

  update_minute_data-Kept :
      (h : Heap F) (p q : ℕ) (old t : Ticker F)
      → get_elem? h p ≡ some old
      → get_elem? h q ≡ some t
      → truncate old.created_at minute ≡ truncate t.created_at minute
      → (h' : Heap F) × (update_minute_data h p q ≡ some h') × SameMinutes h h'
  unfolding update_minute_data
  update_minute_data-Kept h p q old t e1 e2 s =
      let s1 = set-SameMinutes h p old (merge old t) e1 (created_at-merge old t s) in
      let h1 = set h p (merge old t) in
      let (t', e3) = some_of_lt-length h1 q (omega (arith, lt-length_of_some h q e2, s1.size)) in
      let t2 = mirror t' (merge old t) in
      let s2 = set-SameMinutes h1 q t' t2 e3 (created_at-mirror t' (merge old t)) in
      (set h1 q t2, rw (e1, e2, e3), SameMinutes-trans h h1 (set h1 q t2) s1 s2)

  unchanged-Kept : (h : Heap F) (m : TickerHistory) → IsHistory h m → Kept h (some (h, m))
  unchanged-Kept h m i = record {
    heap = h;
    history = m;
    result = refl;
    minutes = record { size = refl; same = λ p. refl };
    valid = i;
  }

  merged-Kept :
      (h : Heap F) (m : TickerHistory) (p q : ℕ) (t old : Ticker F)
      → IsHistory h m
      → get_elem? h p ≡ some t
      → get_elem? h q ≡ some old
      → truncate old.created_at minute ≡ truncate t.created_at minute
      → Kept h (update_minute_data h q p >>= λ h'. some (h', m))
  merged-Kept h m p q t old i e1 e2 s =
      let (h', e, kept) = update_minute_data-Kept h q p old t e2 e1 s in
      record {
        heap = h';
        history = m;
        result = rw e;
        minutes = kept;
        valid = IsHistory-SameMinutes h h' m kept i;
      }

  update_old-Kept :
      (h : Heap F) (m : TickerHistory) (r : Ring ℕ) (p : ℕ) (t : Ticker F) (q : ℕ) (old : Ticker F)
      → IsHistory h m
      → (b : IsBuffer h r) → get_elem? h p ≡ some t
      → get_elem? h q ≡ some old
      → last? b.items ≡ some q
      → Kept h (update_old h m r p t q old)
  unfolding update_old
  update_old-Kept h m r p t q old i b e1 e2 l =
      elim (Bool-cases (after old.created_at t.created_at)) [
        | inl late ↦ rw late (unchanged-Kept h m i)
        | inr fresh ↦
            elim (Bool-cases
              (same_time (truncate old.created_at minute) (truncate t.created_at minute))) [
                | inl same ↦
                    rw (fresh, same) (merged-Kept h m p q t old i e1 e2 ((==_iff _ _).0 same))
                | inr differ ↦
                    rw (fresh, differ)
                      (new_minute-Kept h m r p t i b e1 (λ q' l'.
                        let newest : q ≡ q' = cc in
                        subst (λ k. minute_at h k < minute_at h p) newest
                          (rw (e1, e2) (later_minute old.created_at t.created_at fresh differ))))
              ]
      ]

  update_last-Kept :
      (h : Heap F) (m : TickerHistory) (r : Ring ℕ) (p : ℕ) (t : Ticker F) (newest : Option ℕ)
      → IsHistory h m
      → (b : IsBuffer h r) → get_elem? h p ≡ some t
      → last? b.items ≡ newest
      → Kept h (update_last h m r p t newest)
  unfolding update_last
  update_last-Kept h m r p t none i b e l = new_minute-Kept h m r p t i b e (λ q l'. cc)
  update_last-Kept h m r p t (some q) i b e l =
      let (old, e2) = some_of_lt-length h q (All-last? (λ q. q < length h) b.items b.live l) in
      rw e2 (update_old-Kept h m r p t q old i b e e2 l)

  pub get_or_create-IsBuffer :
      (h : Heap F) (m : TickerHistory) (name : String)
      → IsHistory h m
      → IsBuffer h (get_or_create_buffer m name).0 × IsHistory h (get_or_create_buffer m name).1
  unfolding get_or_create_buffer
  get_or_create-IsBuffer h m name i = elim (Option-cases (lookup name m)) [
    | inl e ↦
        rw (e, get_or_create_buffer)
          (new_buffer-IsBuffer h, IsHistory-insert h m name new_buffer i (new_buffer-IsBuffer h))
    | inr (r, e) ↦ rw (e, get_or_create_buffer) (i.buffer name r e, i)
  ]

  -- `UpdateTicker` on a live ticker never panics, keeps the invariant of the ticker buffers (valid
  -- rings of 25 live addresses whose minutes strictly increase, so one entry for each minute), and
  -- moves no ticker of the heap to another minute.
  pub update_ticker-Kept :
      (h : Heap F) (m : TickerHistory) (p : ℕ)
      → IsHistory h m
      → p < length h
      → Kept h (update_ticker h m p)
  unfolding update_ticker
  update_ticker-Kept h m p i lp =
      let (t, e) = some_of_lt-length h p lp in
      let (b, i') = get_or_create-IsBuffer h m t.symbol i in
      rw (e, last-Holds (get_or_create_buffer m t.symbol).0 b.items b.holds)
        (update_last-Kept h (get_or_create_buffer m t.symbol).1 (get_or_create_buffer m t.symbol).0
          p t (last? b.items) i' b e refl)
