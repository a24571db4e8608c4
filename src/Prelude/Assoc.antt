-- ===== src/Prelude/Assoc.antt =====
-- Go maps keyed by text, as association lists with one entry for each key.
use Prim.Native.String.{String}
use mathlib.Core.Path.{◌≡◌, refl}
use mathlib.Core.Option.{Option, none, some}
use mathlib.Core.List.{List, [], ◌∷◌}
use native.Mathlib.Omega.{arith}
use text.Mathlib.Text.{◌==◌ as str_eq}
use text.Mathlib.TextEquality.{eq_iff}
use exchange_data_importer.Prelude.Tests.{if◌then◌else◌}

module _ {ℓ} {V : Type ℓ} where
  -- `m[key]`: `none` is a missing key.
  unfoldable pub lookup : String → List (String × V) → Option V
  lookup key [] = none
  lookup key ((name, value) ∷ entries) =
      let further = lookup key entries in if str_eq name key then some value else further

  -- `m[key] = value`: an entry of the key is replaced where it stands.
  unfoldable pub insert : String → V → List (String × V) → List (String × V)
  insert key value [] = (key, value) ∷ []
  insert key value ((name, old) ∷ entries) =
      let further = insert key value entries in
      if str_eq name key then (key, value) ∷ entries else (name, old) ∷ further

  pub lookup-insert :
      (key name : String) (value : V) (entries : List (String × V))
      → lookup name (insert key value entries)
        ≡ (if str_eq key name then some value else lookup name entries)
  unfolding lookup insert
  lookup-insert key name value [] = refl
  lookup-insert key name value ((first, old) ∷ entries) = ground (
    arith,
    lookup-insert key name value entries,
    eq_iff first key,
    eq_iff first name,
    eq_iff key name,
  )
