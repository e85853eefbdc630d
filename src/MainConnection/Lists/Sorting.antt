-- ===== src/MainConnection/Lists/Sorting.antt =====
-- The order of getListElements, CAmMainConnectionElement.cpp.
use audio_manager_plugins.Base.{
  List, [], ◌∷◌, Option, some, Bool, true, false, ◌&&◌, ◌≡◌, refl, ap, ◌∙◌, arith, if◌then◌else◌,
  length, leb, Bool-cases, inl, inr, All,
}
use audio_manager_plugins.Base.Int.{ℤ, pos, negsuc, less, is_same}
use audio_manager_plugins.MainConnection.{MainConnectionElement}
use audio_manager_plugins.MainConnection.Lists.{
  MainConnectionFactory, Order, o_high_priority, o_low_priority, get_priority, insert_sorted,
  stable_sort, in_order, sort_collected, collect, get_list_elements,
}
use audio_manager_plugins.MainConnection.Filter.{ConnectionListFilter}

-- The entries of a priority, in their order.
abbrev pub of_priority : ℤ → List MainConnectionElement → List MainConnectionElement
of_priority k [] = []
of_priority k (c ∷ cs) =
    if is_same (get_priority c) k then c ∷ of_priority k cs else of_priority k cs

module _ {A : Type 0} (lt : A → A → Bool) where
  -- The first entry, if there is one, is not less than x.
  abbrev pub IsBound : A → List A → Type 0
  IsBound x [] = Unit
  IsBound x (y ∷ ys) = lt y x ≡ false

  abbrev pub IsSorted : List A → Type 0
  IsSorted [] = Unit
  IsSorted (x ∷ xs) = IsBound x xs × IsSorted xs

  IsBound-if :
      (b : Bool) (y : A) (xs ys : List A)
      → IsBound y xs
      → IsBound y ys
      → IsBound y (if b then xs else ys)
  IsBound-if true y xs ys h k = h
  IsBound-if false y xs ys h k = k

  IsBound-insert_sorted :
      (y x : A) (ys : List A) → lt x y ≡ false → IsBound y ys → IsBound y (insert_sorted lt x ys)
  unfolding insert_sorted
  IsBound-insert_sorted y x [] h k = h
  IsBound-insert_sorted y x (z ∷ zs) h k = IsBound-if (lt z x) y _ (x ∷ z ∷ zs) k h

  module _ (asym : (x y : A) → lt x y ≡ true → lt y x ≡ false) where
    insert_sorted-IsSorted : (x : A) (ys : List A) → IsSorted ys → IsSorted (insert_sorted lt x ys)
    unfolding insert_sorted
    insert_sorted-IsSorted x [] h = (tt, tt)
    insert_sorted-IsSorted x (y ∷ ys) h = elim (Bool-cases (lt y x)) [
      | inl e ↦
          rw e (IsBound-insert_sorted y x ys (asym y x e) h.0, insert_sorted-IsSorted x ys h.1)
      | inr e ↦ rw e (e, h)
    ]

    stable_sort-IsSorted : (xs : List A) → IsSorted (stable_sort lt xs)
    unfolding stable_sort
    stable_sort-IsSorted [] = tt
    stable_sort-IsSorted (x ∷ xs) = insert_sorted-IsSorted x _ (stable_sort-IsSorted xs)

less_asym : (a b : ℤ) → less a b ≡ true → less b a ≡ false
less_asym (pos m) (pos n) h = ground arith
less_asym (pos m) (negsuc n) h = cc
less_asym (negsuc m) (pos n) h = refl
less_asym (negsuc m) (negsuc n) h = ground arith

-- Two priorities that are both k are not less than each other.
same_not_less : (a b k : ℤ) → is_same a k ≡ true → is_same b k ≡ true → less a b ≡ false
same_not_less (pos m) (pos n) (pos k) h j = ground arith
same_not_less (pos m) (pos n) (negsuc k) h j = cc
same_not_less (pos m) (negsuc n) k h j = refl
same_not_less (negsuc m) (pos n) (pos k) h j = cc
same_not_less (negsuc m) (pos n) (negsuc k) h j = cc
same_not_less (negsuc m) (negsuc n) (pos k) h j = cc
same_not_less (negsuc m) (negsuc n) (negsuc k) h j = ground arith

-- An order on the elements that tells those of one priority not apart.
module _ (lt : MainConnectionElement → MainConnectionElement → Bool)
    (apart : (c d : MainConnectionElement) (k : ℤ)
      → is_same (get_priority c) k ≡ true
      → is_same (get_priority d) k ≡ true
      → lt c d ≡ false) where
  apart_bool :
      (c d : MainConnectionElement) (k : ℤ)
      → is_same (get_priority c) k && (is_same (get_priority d) k && lt c d) ≡ false
  apart_bool c d k = elim (Bool-cases (is_same (get_priority c) k)) [
    | inr other ↦ rw other refl
    | inl h ↦ rw h (elim (Bool-cases (is_same (get_priority d) k)) [
      | inr other ↦ rw other refl
      | inl i ↦ rw i (apart c d k h i)
    ])
  ]

  of_priority-insert_sorted :
      (k : ℤ) (c : MainConnectionElement) (cs : List MainConnectionElement)
      → of_priority k (insert_sorted lt c cs) ≡ of_priority k (c ∷ cs)
  unfolding insert_sorted
  of_priority-insert_sorted k c [] = refl
  of_priority-insert_sorted k c (d ∷ cs) =
      ground (arith, of_priority-insert_sorted k c cs, apart_bool d c k)

  of_priority-stable_sort :
      (k : ℤ) (cs : List MainConnectionElement)
      → of_priority k (stable_sort lt cs) ≡ of_priority k cs
  unfolding stable_sort
  of_priority-stable_sort k [] = refl
  of_priority-stable_sort k (c ∷ cs) =
      of_priority-insert_sorted k c (stable_sort lt cs)
      ∙ ap (λ xs. if is_same (get_priority c) k then c ∷ xs else xs) (of_priority-stable_sort k cs)

-- The two orders by priority.
abbrev pub lower : MainConnectionElement → MainConnectionElement → Bool
lower l r = less (get_priority l) (get_priority r)

abbrev pub higher : MainConnectionElement → MainConnectionElement → Bool
higher l r = less (get_priority r) (get_priority l)

sort_collected-some :
    (order : Order) (o : Option (List MainConnectionElement)) (cs rs : List MainConnectionElement)
    → o ≡ some cs
    → (if leb (length cs) 1 then cs else in_order order cs) ≡ rs
    → sort_collected order o ≡ some rs
unfolding in_order
sort_collected-some order o cs rs e f = rw e (ap some f)

sorted_anyway :
    (lt : MainConnectionElement → MainConnectionElement → Bool) (cs : List MainConnectionElement)
    → (if leb (length cs) 1 then cs else stable_sort lt cs) ≡ stable_sort lt cs
unfolding stable_sort insert_sorted
sorted_anyway lt [] = refl
sorted_anyway lt (c ∷ []) = refl
sorted_anyway lt (c ∷ d ∷ cs) = ground arith

-- By O_HIGH_PRIORITY getListElements lists the connections that match in the order of their
-- priorities, the least number first, and by O_LOW_PRIORITY the greatest number first; in both the
-- connections of one priority keep their order.
pub get_list_elements-IsSorted :
    (f : ConnectionListFilter) (factory : MainConnectionFactory) (cs : List MainConnectionElement)
    (k : ℤ)
    → collect f factory.map_elements factory.ordered_list ≡ some cs
    → (high low : List MainConnectionElement) × (get_list_elements f o_high_priority factory
        ≡ some high)
      × (get_list_elements f o_low_priority factory ≡ some low)
      × IsSorted lower high
      × IsSorted higher low
      × (of_priority k high ≡ of_priority k cs)
      × (of_priority k low ≡ of_priority k cs)
unfolding get_list_elements in_order
get_list_elements-IsSorted f factory cs k collected = (
  stable_sort lower cs,
  stable_sort higher cs,
  sort_collected-some o_high_priority _ cs _ collected (sorted_anyway lower cs),
  sort_collected-some o_low_priority _ cs _ collected (sorted_anyway higher cs),
  stable_sort-IsSorted lower (λ x y. less_asym (get_priority x) (get_priority y)) cs,
  stable_sort-IsSorted higher (λ x y. less_asym (get_priority y) (get_priority x)) cs,
  of_priority-stable_sort lower (λ c d j. same_not_less (get_priority c) (get_priority d) j) k cs,
  of_priority-stable_sort higher
      (λ c d j h i. same_not_less (get_priority d) (get_priority c) j i h) k cs,
)

-- A predicate of all entries is one of all sorted entries.
All-insert_sorted {ℓ κ} :
    {A : Type ℓ} (P : A → Type κ) (lt : A → A → Bool) (x : A) (ys : List A)
    → P x
    → All P ys
    → All P (insert_sorted lt x ys)
unfolding insert_sorted
All-insert_sorted P lt x [] px all = (px, tt)
All-insert_sorted P lt x (y ∷ ys) px all = elim (Bool-cases (lt y x)) [
  | inl h ↦ rw h (all.0, All-insert_sorted P lt x ys px all.1)
  | inr h ↦ rw h (px, all)
]

pub All-stable_sort {ℓ κ} :
    {A : Type ℓ} (P : A → Type κ) (lt : A → A → Bool) (xs : List A)
    → All P xs
    → All P (stable_sort lt xs)
unfolding stable_sort
All-stable_sort P lt [] all = all
All-stable_sort P lt (x ∷ xs) all =
    All-insert_sorted P lt x (stable_sort lt xs) all.0 (All-stable_sort P lt xs all.1)
