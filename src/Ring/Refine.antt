-- ===== src/Ring/Refine.antt =====
-- A ring buffer holds a list of at most `capacity` items, oldest first.
use native.Mathlib.Numerals.{add-one}
use native.Mathlib.Decide.{dec_lt}
use exchange_data_importer.Prelude.{
  ℕ, zero, suc, ◌+◌, ◌-◌, ◌%◌, ◌≤◌, ◌<◌, ◌≡◌, refl, sym, ◌∙◌, ap, true, false, none, some, List, [],
  ◌∷◌, ◌++◌, inl, inr, arith, ltb, leb, ◌==◌, if◌then◌else◌, length, get_elem?, set, drop, last?,
  Bool-cases, tests, length-set, length-append, get_elem?-set_self, get_elem?-set_ne,
  get_elem?-append_length, get_elem?-append_left,
}
use exchange_data_importer.Prelude.Int.{pos}
use exchange_data_importer.Ring.{
  Ring, new, push, at, len, found, last, cons_value, values_from, values,
}
use exchange_data_importer.Ring.Inv.{IsValid, new-IsValid}
use exchange_data_importer.Ring.Window.{offsets_ne, offset_ne_start, offset_full, offset_next}

pub record Holds {ℓ} {A : Type ℓ} (r : Ring A) (xs : List A) : Type ℓ where
  pub valid : IsValid r
  pub count : length xs ≡ r.size
  pub item : (i : ℕ) → i < r.size → get_elem? r.data_ ((r.start + i) % r.capacity) ≡ get_elem? xs i

module _ {ℓ} {A : Type ℓ} where
  -- The specification of `push`: append, and drop the oldest item when full.
  abbrev pub push_list : ℕ → List A → A → List A
  push_list c xs v = if ltb (length xs) c then xs ++ v ∷ [] else drop 1 xs ++ v ∷ []

  pub new-Holds : (c : ℕ) (z : A) → 0 < c → Holds (new c z) []
  unfolding new
  new-Holds c z h = record { valid = new-IsValid c z h; count = refl; item = λ i p. elim p [ ] }

  -- What is read at the index `k` after a write of `v` at `j`.
  item_free :
      (d : List A) (s c n : ℕ) (xs : List A) (v : A)
      → length d ≡ c
      → s < c
      → length xs ≡ n
      → n < c
      → ((i : ℕ) → i < n → get_elem? d ((s + i) % c) ≡ get_elem? xs i)
      → (i : ℕ) → i < n + 1
      → get_elem? (set d ((s + n) % c) v) ((s + i) % c) ≡ get_elem? (xs ++ v ∷ []) i
  item_free d s c n xs v hd hs hn hx item i p = elim (dec_lt i n) [
    | yes q ↦
        get_elem?-set_ne d v (λ e. offsets_ne s i n c hs q hx (sym e))
        ∙ item i q
        ∙ sym (get_elem?-append_left xs (v ∷ []) i (omega arith))
    | no q ↦
        let e : i ≡ n = omega arith in
        rw e (
          get_elem?-set_self d ((s + n) % c) v (omega arith)
          ∙ sym (rw (← hn) (get_elem?-append_length xs v [])))
  ]

  item_full :
      (d : List A) (s c : ℕ) (x : A) (t : List A) (v : A)
      → length d ≡ c
      → s < c
      → suc (length t) ≡ c
      → ((i : ℕ) → i < c → get_elem? d ((s + i) % c) ≡ get_elem? (x ∷ t) i)
      → (i : ℕ) → i < c
      → get_elem? (set d s v) (((s + 1) % c + i) % c) ≡ get_elem? (t ++ v ∷ []) i
  item_full d s c x t v hd hs hx item i p = elim (dec_lt i (length t)) [
    | yes q ↦ rw (offset_next s i c) (
        get_elem?-set_ne d v (offset_ne_start s (suc i) c hs (omega arith) (omega arith))
        ∙ item (suc i) (omega arith)
        ∙ sym (get_elem?-append_left t (v ∷ []) i q))
    | no q ↦
        let e : i ≡ length t = omega arith in
        let full : (s + suc i) % c ≡ s = ap (λ k. (s + k) % c) (omega arith) ∙ offset_full s c hs in
        rw (offset_next s i c, full)
          (get_elem?-set_self d s v (omega arith) ∙ rw e (sym (get_elem?-append_length t v [])))
  ]

  pushed_free : Ring A → A → Ring A
  pushed_free r v = record r {
    data_ = set r.data_ ((r.start + r.size) % r.capacity) v;
    size = r.size + 1;
  }

  pushed_full : Ring A → A → Ring A
  pushed_full r v = record r { data_ = set r.data_ r.start v; start = (r.start + 1) % r.capacity }

  -- The ring after a `push`, when the push does not panic.
  pub pushed : Ring A → A → Ring A
  pushed r v = if ltb r.size r.capacity then pushed_free r v else pushed_full r v

  pushed_free-Holds :
      (r : Ring A) (xs : List A) (v : A)
      → Holds r xs
      → r.size < r.capacity
      → Holds (pushed_free r v) (xs ++ v ∷ [])
  unfolding pushed_free
  pushed_free-Holds r xs v h f = record {
    valid = omega (arith, length-set r.data_ ((r.start + r.size) % r.capacity) v);
    count = omega (arith, length-append xs (v ∷ []));
    item =
        item_free r.data_ r.start r.capacity r.size xs v h.valid.storage h.valid.start_in h.count f
          h.item;
  }

  pushed_full-Holds :
      (r : Ring A) (xs : List A) (v : A)
      → Holds r xs
      → r.size ≡ r.capacity
      → Holds (pushed_full r v) (drop 1 xs ++ v ∷ [])
  unfolding pushed_full
  pushed_full-Holds r [] v h f = absurd (omega arith)
  pushed_full-Holds r (x ∷ t) v h f = record {
    valid = omega (arith, length-set r.data_ r.start v);
    count = omega (arith, length-append t (v ∷ []));
    item = λ i p.
        item_full r.data_ r.start r.capacity x t v (omega arith) (omega arith) (omega arith)
          (λ k q. h.item k (omega arith)) i (omega arith);
  }

  pub push-eq-pushed : (r : Ring A) (v : A) → IsValid r → push r v ≡ some (pushed r v)
  unfolding push pushed pushed_free pushed_full
  push-eq-pushed r v h = ground arith

  pub pushed-Holds :
      (r : Ring A) (xs : List A) (v : A)
      → Holds r xs
      → Holds (pushed r v) (push_list r.capacity xs v)
  unfolding pushed
  pushed-Holds r xs v h = elim (Bool-cases (ltb r.size r.capacity)) [
    | inl e ↦ rw (h.count, e) (pushed_free-Holds r xs v h (omega tests))
    | inr e ↦ rw (h.count, e) (pushed_full-Holds r xs v h (ground arith))
  ]

  -- A push onto a valid ring succeeds, and appends to the list that the ring holds, dropping the
  -- oldest item when the ring is full.
  pub push-Holds :
      (r : Ring A) (xs : List A) (v : A)
      → Holds r xs
      → (r' : Ring A) × (push r v ≡ some r') × Holds r' (push_list r.capacity xs v)
  push-Holds r xs v h = (pushed r v, push-eq-pushed r v h.valid, pushed-Holds r xs v h)

  pub len-Holds : (r : Ring A) (xs : List A) → Holds r xs → len r ≡ length xs
  unfolding len
  len-Holds r xs h = sym h.count

  get_elem?-none : (xs : List A) (i : ℕ) → length xs ≤ i → get_elem? xs i ≡ none
  get_elem?-none [] i h = refl
  get_elem?-none (x ∷ xs) zero h = elim h [ ]
  get_elem?-none (x ∷ xs) (suc i) h = get_elem?-none xs i (omega arith)

  -- `At` reads the item of that index, and panics exactly out of range.
  pub at-Holds : (r : Ring A) (xs : List A) (i : ℕ) → Holds r xs → at r (pos i) ≡ get_elem? xs i
  unfolding at
  at-Holds r xs i h = elim (Bool-cases (leb r.size i)) [
    | inl e ↦ rw e (sym (get_elem?-none xs i (omega tests)))
    | inr e ↦ rw e (h.item i (ground arith))
  ]

  get_elem?_last : (x : A) (xs : List A) → get_elem? (x ∷ xs) (length xs) ≡ last? (x ∷ xs)
  get_elem?_last x [] = refl
  get_elem?_last x (y ∷ ys) = get_elem?_last y ys

  last?-some : (x : A) (xs : List A) → found (last? (x ∷ xs)) ≡ some (last? (x ∷ xs))
  unfolding found
  last?-some x [] = refl
  last?-some x (y ∷ ys) = last?-some y ys

  -- `Last` never panics on a valid ring, and returns the newest item.
  pub last-Holds : (r : Ring A) (xs : List A) → Holds r xs → last r ≡ some (last? xs)
  unfolding last
  last-Holds r [] h = let e : (r.size == 0) ≡ true = ground arith in rw e
  last-Holds r (x ∷ xs) h =
      let e : (r.size == 0) ≡ false = ground arith in
      let index : r.start + r.size - 1 ≡ r.start + length xs = omega arith in
      rw (e, index, h.item (length xs) (omega arith), get_elem?_last x xs) (last?-some x xs)

  drop-get :
      (xs : List A) (i : ℕ) (n : ℕ)
      → length xs ≡ i + suc n
      → cons_value (get_elem? xs i) (some (drop (suc i) xs)) ≡ some (drop i xs)
  unfolding cons_value
  drop-get [] i n h = absurd (omega arith)
  drop-get (x ∷ xs) zero n h = refl
  drop-get (x ∷ xs) (suc i) n h = drop-get xs i n (omega arith)

  drop-length : (xs : List A) → drop (length xs) xs ≡ []
  drop-length [] = refl
  drop-length (x ∷ xs) = drop-length xs

  values_from-Holds :
      (r : Ring A) (xs : List A) (i n : ℕ)
      → Holds r xs
      → i + n ≡ r.size
      → values_from r i n ≡ some (drop i xs)
  unfolding values_from
  values_from-Holds r xs i zero h e =
      let whole : i ≡ length xs = omega arith in rw (whole, drop-length)
  values_from-Holds r xs i (suc n) h e =
      rw (values_from-Holds r xs (i + 1) n h (omega arith), h.item i (omega arith), add-one i)
        (drop-get xs i n (omega arith))

  -- `Values` lists the items oldest first.
  pub values-Holds : (r : Ring A) (xs : List A) → Holds r xs → values r ≡ some xs
  unfolding values
  values-Holds r xs h = values_from-Holds r xs 0 r.size h (omega arith)

  -- On a ring that holds a list, the reads never panic but out of range: `Len` is the list's
  -- length, `Last` its last item, `Values` the list, and `At` of an index from 0 on the item of
  -- that index, with a panic exactly where there is none.
  pub reads-Holds :
      (r : Ring A) (xs : List A) (i : ℕ)
      → Holds r xs
      → (len r ≡ length xs)
        × (last r ≡ some (last? xs))
        × (values r ≡ some xs)
        × (at r (pos i) ≡ get_elem? xs i)
  reads-Holds r xs i h =
      (len-Holds r xs h, last-Holds r xs h, values-Holds r xs h, at-Holds r xs i h)
