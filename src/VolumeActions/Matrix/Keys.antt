-- ===== src/VolumeActions/Matrix/Keys.antt =====
-- The keys of the map over which _setupVolumeMatrix of CAmActionSetVolumeCore.cpp runs, and those that
-- are still to come after a key.
use audio_manager_plugins.Base.{
  ℕ, suc, ◌≤◌, ◌<◌, List, [], ◌∷◌, ◌++◌, Option, none, some, Bool, true, false, ltb, ◌==◌, ◌||◌,
  ◌≡◌, refl, ap, if◌then◌else◌, length, All, arith, Bool-cases, inl, inr,
}
use audio_manager_plugins.Base.Maps.{insert}
use audio_manager_plugins.MainConnection.{MainConnectionElement}
use audio_manager_plugins.VolumeActions.{ConnectionInfo}

abbrev pub has : ℕ → List ℕ → Bool
has k [] = false
has k (j ∷ js) = k == j || has k js

-- The key comes behind the one of the last round.
abbrev pub is_after : Option ℕ → ℕ → Bool
is_after none k = true
is_after (some j) k = ltb j k

-- The keys that are still to come.
abbrev pub remaining : Option ℕ → List ℕ → ℕ
remaining after [] = 0
remaining after (k ∷ ks) =
    let rest = remaining after ks in if is_after after k then suc rest else rest

pub remaining-length : (after : Option ℕ) (ks : List ℕ) → remaining after ks ≤ length ks
remaining-length after [] = omega arith
remaining-length after (k ∷ ks) = ground (arith, remaining-length after ks)

remaining-later :
    (after : Option ℕ) (j : ℕ) (ks : List ℕ)
    → is_after after j ≡ true
    → remaining (some j) ks ≤ remaining after ks
remaining-later after j [] h = omega arith
remaining-later none j (k ∷ ks) h = ground (arith, remaining-later none j ks h)
remaining-later (some i) j (k ∷ ks) h = ground (arith, remaining-later (some i) j ks h)

-- A round for a key that was still to come leaves fewer.
pub remaining-less :
    (after : Option ℕ) (j : ℕ) (ks : List ℕ)
    → is_after after j ≡ true
    → has j ks ≡ true
    → remaining (some j) ks < remaining after ks
remaining-less after j [] h i = cc
remaining-less none j (k ∷ ks) h i = elim (Bool-cases (j == k)) [
  | inl y ↦ ground (arith, remaining-later none j ks h)
  | inr n ↦ ground (arith, remaining-less none j ks h)
]
remaining-less (some l) j (k ∷ ks) h i = elim (Bool-cases (j == k)) [
  | inl y ↦ ground (arith, remaining-later (some l) j ks h)
  | inr n ↦ ground (arith, remaining-less (some l) j ks h)
]

abbrev pub KeysAreIn : List ℕ → List (ℕ × ConnectionInfo) → Type 0
KeysAreIn ks m = All (λ e. has e.0 ks ≡ true) m

insert-KeysAreIn :
    (ks : List ℕ) (k : ℕ) (v : ConnectionInfo) (m : List (ℕ × ConnectionInfo))
    → has k ks ≡ true
    → KeysAreIn ks m
    → KeysAreIn ks (insert k v m)
unfolding insert
insert-KeysAreIn ks k v [] known h = (known, tt)
insert-KeysAreIn ks k v (e ∷ m) known (h, hs) = elim (Bool-cases (k == e.0)) [
  | inl same ↦ rw same (known, hs)
  | inr other ↦ rw other (elim (Bool-cases (ltb k e.0)) [
    | inl before ↦ rw before (known, (h, hs))
    | inr behind ↦ rw behind (h, insert-KeysAreIn ks k v m known hs)
  ])
]

pub insert_unless-KeysAreIn :
    (ks : List ℕ) (k : ℕ) (v : ConnectionInfo) (m : List (ℕ × ConnectionInfo))
    (found : Option ConnectionInfo)
    → has k ks ≡ true
    → KeysAreIn ks m
    → KeysAreIn ks (elim found [ none ↦ insert k v m | some info ↦ m ])
insert_unless-KeysAreIn ks k v m none known h = insert-KeysAreIn ks k v m known h
insert_unless-KeysAreIn ks k v m (some info) known h = h

abbrev pub keys_of : List (ℕ × ConnectionInfo) → List ℕ
keys_of [] = []
keys_of (e ∷ m) = e.0 ∷ keys_of m

abbrev pub ids_of : List MainConnectionElement → List ℕ
ids_of [] = []
ids_of (c ∷ cs) = c.id ∷ ids_of cs

pub length-keys_of : (m : List (ℕ × ConnectionInfo)) → length (keys_of m) ≡ length m
length-keys_of [] = refl
length-keys_of (e ∷ m) = ap suc (length-keys_of m)

pub length-ids_of : (cs : List MainConnectionElement) → length (ids_of cs) ≡ length cs
length-ids_of [] = refl
length-ids_of (c ∷ cs) = ap suc (length-ids_of cs)

pub has-append_left : (k : ℕ) (js ks : List ℕ) → has k js ≡ true → has k (js ++ ks) ≡ true
has-append_left k [] ks h = cc
has-append_left k (j ∷ js) ks h = elim (Bool-cases (k == j)) [
  | inl y ↦ rw y refl
  | inr n ↦ ground (arith, has-append_left k js ks)
]

pub has-append_right : (k : ℕ) (js ks : List ℕ) → has k ks ≡ true → has k (js ++ ks) ≡ true
has-append_right k [] ks h = h
has-append_right k (j ∷ js) ks h = ground (arith, has-append_right k js ks h)

pub KeysAreIn-keys_of :
    (ks : List ℕ) (m : List (ℕ × ConnectionInfo))
    → ((k : ℕ) → has k (keys_of m) ≡ true → has k ks ≡ true)
    → KeysAreIn ks m
KeysAreIn-keys_of ks [] sub = tt
KeysAreIn-keys_of ks (e ∷ m) sub =
    (sub e.0 (ground arith), KeysAreIn-keys_of ks m (λ k h. sub k (ground (arith, h))))
