-- ===== src/Ring/Inv.antt =====
-- The representation invariant of the ring buffer.
use exchange_data_importer.Prelude.{
  ℕ, ◌+◌, ◌%◌, ◌≤◌, ◌<◌, ◌≡◌, refl, some, arith, length, length-set, length-replicate,
}
use exchange_data_importer.Ring.{Ring, new, push}

pub record IsValid {ℓ} {A : Type ℓ} (r : Ring A) : Type 0 where
  pub storage : length r.data_ ≡ r.capacity
  pub start_in : r.start < r.capacity
  pub size_in : r.size ≤ r.capacity

module _ {ℓ} {A : Type ℓ} where
  pub new-IsValid : (c : ℕ) (z : A) → 0 < c → IsValid (new c z)
  unfolding new
  new-IsValid c z h = omega (arith, length-replicate c z)

  pub push-IsValid :
      (r : Ring A) (v : A) (r' : Ring A) → IsValid r → push r v ≡ some r' → IsValid r'
  unfolding push
  push-IsValid r v r' i e =
      ground (
        arith,
        length-set r.data_ ((r.start + r.size) % r.capacity) v,
        length-set r.data_ r.start v,
      )

  pub capacity-push :
      (r : Ring A) (v : A) (r' : Ring A) → push r v ≡ some r' → r'.capacity ≡ r.capacity
  unfolding push
  capacity-push r v r' e = ground arith

  pub capacity-new : (c : ℕ) (z : A) → (new c z).capacity ≡ c
  unfolding new
  capacity-new c z = refl
