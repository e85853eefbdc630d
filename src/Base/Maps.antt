-- ===== src/Base/Maps.antt =====
-- std::map with numbers for keys, a pointer's number among them: an association list in the order of
-- the keys.
use Prim.Native.Nat.{ℕ}
use mathlib.Core.Path.{◌≡◌, refl}
use mathlib.Core.Bool.{Bool, true}
use mathlib.Core.List.{List, [], ◌∷◌}
use mathlib.Core.Option.{Option, none, some}
use native.Mathlib.Omega.{arith}
use audio_manager_plugins.Base.Tests.{◌==◌, ltb, if◌then◌else◌}
use audio_manager_plugins.Base.Lists.{All}

module _ {ℓ} {A : Type ℓ} where
  unfoldable pub lookup : ℕ → List (ℕ × A) → Option A
  lookup k [] = none
  lookup k ((j, v) ∷ m) = if k == j then some v else lookup k m

  unfoldable pub insert : ℕ → A → List (ℕ × A) → List (ℕ × A)
  insert k v [] = (k, v) ∷ []
  insert k v ((j, w) ∷ m) =
      if k == j then (k, v) ∷ m else if ltb k j then (k, v) ∷ (j, w) ∷ m else (j, w) ∷ insert k v m

  -- The entries whose key fails the test.
  unfoldable pub erase_if : (ℕ → Bool) → List (ℕ × A) → List (ℕ × A)
  erase_if test [] = []
  erase_if test ((j, w) ∷ m) = if test j then erase_if test m else (j, w) ∷ erase_if test m

  pub lookup-insert :
      (k j : ℕ) (v : A) (m : List (ℕ × A))
      → lookup j (insert k v m) ≡ (if k == j then some v else lookup j m)
  unfolding lookup insert
  lookup-insert k j v [] = ground arith
  lookup-insert k j v ((i, w) ∷ m) = ground (arith, lookup-insert k j v m)

  pub lookup-erase_if :
      (test : ℕ → Bool) (j : ℕ) (m : List (ℕ × A))
      → lookup j (erase_if test m) ≡ (if test j then none else lookup j m)
  unfolding lookup erase_if
  lookup-erase_if test j [] = ground arith
  lookup-erase_if test j ((i, w) ∷ m) = ground (arith, lookup-erase_if test j m)

  pub erase_if-all :
      (test : ℕ → Bool) (m : List (ℕ × A)) → ((j : ℕ) → test j ≡ true) → erase_if test m ≡ []
  unfolding erase_if
  erase_if-all test [] all = refl
  erase_if-all test ((i, w) ∷ m) all = ground (arith, all i, erase_if-all test m all)

-- Every entry is the one that its key finds: no key stands twice.
abbrev pub IsMap {ℓ} : {A : Type ℓ} → List (ℕ × A) → Type ℓ
IsMap m = All (λ e. lookup e.0 m ≡ some e.1) m
