-- ===== src/Ring.antt =====
-- pkg/utils/ringbuffer.go: `RingBuffer[T]`, a circular buffer that overwrites its oldest item.
-- `none` is a panic of the Go runtime or of the code. The lock makes each method one step, so a
-- method is a function of the ring; `data` starts with the zero value of the item type.
pub mod Inv
pub mod Refine
pub mod Window
pub mod History
use exchange_data_importer.Prelude.{
  ℕ, zero, suc, ◌+◌, ◌-◌, ◌%◌, Option, none, some, List, [], ◌∷◌, ltb, leb, ◌==◌, if◌then◌else◌,
  length, get_elem?, set, replicate,
}
use exchange_data_importer.Prelude.Int.{ℤ, pos, negsuc}

pub record Ring {ℓ} (A : Type ℓ) : Type ℓ where
  pub data_ : List A
  pub start : ℕ
  pub size : ℕ
  pub capacity : ℕ

module _ {ℓ} {A : Type ℓ} where
  -- `NewRingBuffer`.
  unfoldable pub new : ℕ → A → Ring A
  new capacity z = record { data_ = replicate capacity z; start = 0; size = 0; capacity = capacity }

  -- `xs[i] = v`, which panics out of range.
  unfoldable pub store : List A → ℕ → A → Option (List A)
  store xs i v = if ltb i (length xs) then some (set xs i v) else none

  unfoldable pub with_data : Option (List A) → (List A → Ring A) → Option (Ring A)
  with_data none build = none
  with_data (some xs) build = some (build xs)

  unfoldable pub push : Ring A → A → Option (Ring A)
  unfolding store with_data
  push r value =
      if ltb r.size r.capacity
      then with_data (store r.data_ ((r.start + r.size) % r.capacity) value)
          (λ xs. record r { data_ = xs; size = r.size + 1 })
      else with_data (store r.data_ r.start value)
          (λ xs. record r { data_ = xs; start = (r.start + 1) % r.capacity })

  unfoldable pub at : Ring A → ℤ → Option A
  at r (negsuc i) = none
  at r (pos i) = if leb r.size i then none else get_elem? r.data_ ((r.start + i) % r.capacity)

  unfoldable pub len : Ring A → ℕ
  len r = r.size

  unfoldable pub cap_of : Ring A → ℕ
  cap_of r = r.capacity

  -- The inner `none` is the result `(zero, false)`.
  unfoldable pub found : Option A → Option (Option A)
  found none = none
  found (some a) = some (some a)

  unfoldable pub last : Ring A → Option (Option A)
  unfolding found
  last r =
      if r.size == 0
      then some none
      else found (get_elem? r.data_ ((r.start + r.size - 1) % r.capacity))

  unfoldable pub cons_value : Option A → Option (List A) → Option (List A)
  cons_value (some a) (some out) = some (a ∷ out)
  cons_value _ _ = none

  -- The loop of `Values`, from index `i` on with `n` rounds to go.
  unfoldable pub values_from : Ring A → ℕ → ℕ → Option (List A)
  unfolding cons_value
  values_from r i zero = some []
  values_from r i (suc n) =
      cons_value (get_elem? r.data_ ((r.start + i) % r.capacity)) (values_from r (i + 1) n)

  unfoldable pub values : Ring A → Option (List A)
  unfolding values_from
  values r = values_from r 0 r.size
