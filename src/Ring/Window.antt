-- ===== src/Ring/Window.antt =====
-- Arithmetic of the ring's indices.
use native.Mathlib.Nat.{mod-add-mod, mod-eq_of_lt, mod-eq-sub-mod}
use native.Mathlib.Decide.{dec_lt}
use exchange_data_importer.Prelude.{
  ℕ, suc, ◌+◌, ◌-◌, ◌%◌, ◌≤◌, ◌<◌, ◌≡◌, ap, ◌∙◌, ◌≢◌, ◌⊎◌, inl, inr, arith,
}

mod_cases : (a c : ℕ) → a < c + c → ((a < c) × (a % c ≡ a)) ⊎ ((c ≤ a) × (a % c ≡ a - c))
mod_cases a c h = elim (dec_lt a c) [
  | yes p ↦ inl (p, mod-eq_of_lt p)
  | no p ↦
      inr (omega arith, mod-eq-sub-mod {n = a} {m = c} (omega arith) ∙ mod-eq_of_lt (omega arith))
]

-- Two offsets below the capacity never meet at one index.
pub offsets_ne : (s i j c : ℕ) → s < c → i < j → j < c → (s + i) % c ≢ (s + j) % c
offsets_ne s i j c hs hi hj =
    omega (arith, mod_cases (s + i) c (omega arith), mod_cases (s + j) c (omega arith))

pub offset_ne_start : (s j c : ℕ) → s < c → 0 < j → j < c → s ≢ (s + j) % c
offset_ne_start s j c hs hi hj = omega (arith, mod_cases (s + j) c (omega arith))

pub offset_full : (s c : ℕ) → s < c → (s + c) % c ≡ s
offset_full s c h = omega (arith, mod_cases (s + c) c (omega arith))

pub offset_next : (s i c : ℕ) → ((s + 1) % c + i) % c ≡ (s + suc i) % c
offset_next s i c = mod-add-mod (s + 1) c i ∙ ap (λ k. k % c) (omega arith)
