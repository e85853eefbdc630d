-- ===== src/Element/Attachment/Symmetry.antt =====
-- The two sides of the links agree, CAmElement.cpp.
use audio_manager_plugins.Base.{
  ℕ, suc, ◌+◌, ◌-◌, ◌≤◌, List, [], ◌∷◌, ◌++◌, Option, none, some, true, false, if◌then◌else◌, ◌==◌,
  ◌≡◌, refl, sym, subst, arith, Bool-cases, inl, inr, ==_iff,
}
use audio_manager_plugins.Element.Attachment.{
  Links, set_at, contains, erase_first, push_at, erase_at, register, deregister, attached, attach,
  detach,
}

abbrev pub count : ℕ → List ℕ → ℕ
count k [] = 0
count k (j ∷ js) = let rest = count k js in if k == j then suc rest else rest

-- 1 for the pair, and 0 for any other.
abbrev pub at_pair : ℕ → ℕ → ℕ → ℕ → ℕ
at_pair k x j y = if j == k then (if y == x then 1 else 0) else 0

count-push :
    (y x : ℕ) (xs : List ℕ) → count y (xs ++ x ∷ []) ≡ count y xs + (if y == x then 1 else 0)
count-push y x [] = ground arith
count-push y x (z ∷ xs) = ground (arith, count-push y x xs)

count-erase_first :
    (y x : ℕ) (xs : List ℕ) → count y (erase_first x xs) ≡ count y xs - (if y == x then 1 else 0)
unfolding erase_first
count-erase_first y x [] = ground arith
count-erase_first y x (z ∷ xs) = ground (arith, count-erase_first y x xs)

count-contains : (x : ℕ) (xs : List ℕ) → contains x xs ≡ false → count x xs ≡ 0
unfolding contains
count-contains x [] h = refl
count-contains x (z ∷ xs) h = ground (arith, count-contains x xs)

count-set_at :
    (k : ℕ) (v : List ℕ) (f : ℕ → List ℕ) (j y : ℕ)
    → count y (set_at k v f j) ≡ (if j == k then count y v else count y (f j))
count-set_at k v f j y = elim (Bool-cases (j == k)) [ inl h ↦ rw h refl | inr h ↦ rw h refl ]

pub same_self : (k : ℕ) → (k == k) ≡ true
same_self k = ground arith

count-push_at :
    (k x : ℕ) (f : ℕ → List ℕ) (j y : ℕ)
    → count y (push_at k x f j) ≡ count y (f j) + at_pair k x j y
count-push_at k x f j y = elim (Bool-cases (j == k)) [
  | inl h ↦
      subst (λ i. count y (push_at i x f j) ≡ count y (f j) + at_pair i x j y) ((==_iff j k).0 h)
        (rw (same_self j) (count-push y x (f j)))
  | inr h ↦ rw h (omega arith)
]

count-erase_at :
    (k x : ℕ) (f : ℕ → List ℕ) (j y : ℕ)
    → count y (erase_at k x f j) ≡ count y (f j) - at_pair k x j y
count-erase_at k x f j y = elim (Bool-cases (j == k)) [
  | inl h ↦
      subst (λ i. count y (erase_at i x f j) ≡ count y (f j) - at_pair i x j y) ((==_iff j k).0 h)
        (rw (same_self j) (count-erase_first y x (f j)))
  | inr h ↦ rw h (omega arith)
]

contains-count : (x : ℕ) (xs : List ℕ) → contains x xs ≡ true → 1 ≤ count x xs
unfolding contains
contains-count x [] h = cc
contains-count x (z ∷ xs) h = elim (Bool-cases (x == z)) [
  | inl y ↦ ground arith
  | inr n ↦ ground (arith, contains-count x xs)
]

-- What a pair loses, where it does not occur.
nothing_lost :
    (k x : ℕ) (f : ℕ → List ℕ) (j y : ℕ)
    → count x (f k) ≡ 0
    → count y (f j) ≡ count y (f j) - at_pair k x j y
nothing_lost k x f j y none_there = elim (Bool-cases (j == k)) [
  | inr h ↦ rw h (omega arith)
  | inl h ↦ elim (Bool-cases (y == x)) [
    | inr i ↦ rw (h, i) (omega arith)
    | inl i ↦
        rw (h, i)
          (subst (λ a. count y (f a) ≡ count y (f a) - 1) (sym ((==_iff j k).0 h))
            (subst (λ b. count b (f k) ≡ count b (f k) - 1) (sym ((==_iff y x).0 i))
              (omega (arith, none_there))))
  ]
]

pub count-deregister :
    (k x : ℕ) (l : Links) (j y : ℕ)
    → count y ((deregister k (some x) l).list_observers j)
      ≡ count y (l.list_observers j) - at_pair k x j y
unfolding deregister
count-deregister k x l j y = elim (Bool-cases (contains x (l.list_observers k))) [
  | inl h ↦ rw h (count-erase_at k x l.list_observers j y)
  | inr h ↦ rw h (nothing_lost k x l.list_observers j y (count-contains x (l.list_observers k) h))
]

pub deregister-list_subjects :
    (k : ℕ) (self : Option ℕ) (l : Links) → (deregister k self l).list_subjects ≡ l.list_subjects
unfolding deregister
deregister-list_subjects k none l = refl
deregister-list_subjects k (some x) l = elim (Bool-cases (contains x (l.list_observers k))) [
  | inl h ↦ rw h refl
  | inr h ↦ rw h refl
]

-- An element is among the observers of another exactly if that is among its subjects, and at most once.
abbrev pub IsLinked : Links → Type 0
IsLinked l =
    (o s : ℕ)
    → (count o (l.list_observers s) ≡ count s (l.list_subjects o))
      × (count o (l.list_observers s) ≤ 1)

-- One more where there is none.
at_most_one :
    (k x : ℕ) (f : ℕ → List ℕ) (j y : ℕ)
    → count x (f k) ≡ 0
    → count y (f j) ≤ 1
    → count y (f j) + at_pair k x j y ≤ 1
at_most_one k x f j y none_there bound = elim (Bool-cases (j == k)) [
  | inr h ↦ rw h (omega (arith, bound))
  | inl h ↦ elim (Bool-cases (y == x)) [
    | inr i ↦ rw (h, i) (omega (arith, bound))
    | inl i ↦
        rw (h, i)
          (subst (λ a. count y (f a) + 1 ≤ 1) (sym ((==_iff j k).0 h))
            (subst (λ b. count b (f k) + 1 ≤ 1) (sym ((==_iff y x).0 i))
              (omega (arith, none_there))))
  ]
]

-- The two sides of a pair.
at_pair_swap : (k x j y : ℕ) → at_pair k x j y ≡ at_pair x k y j
at_pair_swap k x j y = ground arith

push-IsLinked :
    (this subject : ℕ) (l : Links)
    → IsLinked l
    → count this (l.list_observers subject) ≡ 0
    → IsLinked (record l {
      list_observers = push_at subject this l.list_observers;
      list_subjects = push_at this subject l.list_subjects;
    })
push-IsLinked this subject l linked absent o s = (
  omega (
    arith,
    count-push_at subject this l.list_observers s o,
    count-push_at this subject l.list_subjects o s,
    at_pair_swap subject this s o,
    (linked o s).0,
  ),
  omega (
    arith,
    count-push_at subject this l.list_observers s o,
    at_most_one subject this l.list_observers s o absent (linked o s).1,
  ),
)

pub attach-IsLinked :
    (this : ℕ) (subject : Option ℕ) (l : Links)
    → IsLinked l
    → IsLinked (attach this (some this) subject l).1
unfolding attach register attached
attach-IsLinked this none l linked = linked
attach-IsLinked this (some s) l linked = elim (Bool-cases (contains this (l.list_observers s))) [
  | inr h ↦ rw h (push-IsLinked this s l linked (count-contains this (l.list_observers s) h))
  | inl h ↦ rw h (elim (Bool-cases (contains s (l.list_subjects this))) [
    | inl i ↦ rw i linked
    | inr i ↦ absurd (
        omega (
          arith,
          contains-count this (l.list_observers s) h,
          count-contains s (l.list_subjects this) i,
          (linked this s).0,
        ))
  ])
]

-- A pair that both sides lose.
pub lose-IsLinked :
    (this subject : ℕ) (l m : Links)
    → IsLinked l
    → ((o s : ℕ)
        → count o (m.list_observers s) ≡ count o (l.list_observers s) - at_pair subject this s o)
    → ((o s : ℕ)
        → count s (m.list_subjects o) ≡ count s (l.list_subjects o) - at_pair this subject o s)
    → IsLinked m
lose-IsLinked this subject l m linked observers subjects o s = (
  omega (arith, observers o s, subjects o s, at_pair_swap subject this s o, (linked o s).0),
  omega (arith, observers o s, (linked o s).1),
)

pub detach-IsLinked :
    (this : ℕ) (subject : Option ℕ) (l : Links)
    → IsLinked l
    → IsLinked (detach this (some this) subject l).1
unfolding detach
detach-IsLinked this none l linked = linked
detach-IsLinked this (some s) l linked = elim (Bool-cases (contains s (l.list_subjects this))) [
  | inr h ↦ rw h linked
  | inl h ↦ rw h (
      lose-IsLinked this s l _ linked
        (λ o s'.
          count-deregister s this (record l { list_subjects = erase_at this s l.list_subjects }) s'
            o)
        (λ o s'.
          rw
            (deregister-list_subjects s (some this)
              (record l { list_subjects = erase_at this s l.list_subjects }))
            (count-erase_at this s l.list_subjects o s')))
]
