-- ===== src/Tests/Sorting.antt =====
-- A sort that meets the contract of sort.Slice.
use realtime_messaging_platf.Prelude.{
  ◌≡◌, refl, Bool, true, false, List, [], ◌∷◌, length, filter, All, All-map, arith, if◌then◌else◌,
  Bool-cases, inl, inr,
}
use realtime_messaging_platf.Chatmgmt.App.Contract.{InOrder, SortContract}

module _ {A : Type 0} (less : A → A → Bool) where
  unfoldable pub insert : A → List A → List A
  insert x [] = x ∷ []
  insert x (y ∷ ys) = if less y x then y ∷ insert x ys else x ∷ (y ∷ ys)

  unfoldable pub insertion_sort : List A → List A
  unfolding insert
  insertion_sort [] = []
  insertion_sort (x ∷ xs) = insert x (insertion_sort xs)

  length-filter-insert :
      (p : A → Bool) (x : A) (ys : List A)
      → length (filter p (insert x ys)) ≡ length (filter p (x ∷ ys))
  unfolding insert
  length-filter-insert p x [] = refl
  length-filter-insert p x (y ∷ ys) = ground (arith, length-filter-insert p x ys)

  pub length-filter-sort :
      (p : A → Bool) (xs : List A) → length (filter p (insertion_sort xs)) ≡ length (filter p xs)
  unfolding insertion_sort
  length-filter-sort p [] = refl
  length-filter-sort p (x ∷ xs) =
      ground (arith, length-filter-insert p x (insertion_sort xs), length-filter-sort p xs)

  module _ (asym : (x y : A) → less x y ≡ true → less y x ≡ false)
      (negtrans : (x y z : A) → less x y ≡ false → less y z ≡ false → less x z ≡ false) where
    All-insert : (P : A → Type 0) (x : A) (ys : List A) → P x → All P ys → All P (insert x ys)
    unfolding insert
    All-insert P x [] h k = (h, tt)
    All-insert P x (y ∷ ys) h k = elim (Bool-cases (less y x)) [
      | inl e ↦ rw e (k.0, All-insert P x ys h k.1)
      | inr e ↦ rw e (h, k)
    ]

    InOrder-insert : (x : A) (ys : List A) → InOrder less ys → InOrder less (insert x ys)
    unfolding insert
    InOrder-insert x [] h = (tt, tt)
    InOrder-insert x (y ∷ ys) h = elim (Bool-cases (less y x)) [
      | inl e ↦
          rw e (All-insert (λ z. less z y ≡ false) x ys (asym y x e) h.0, InOrder-insert x ys h.1)
      | inr e ↦ rw e (
        (
          e,
          All-map {P = λ z. less z y ≡ false} {Q = λ z. less z x ≡ false} ys
              (λ z k. negtrans z y x k e) h.0,
        ),
        h,
      )
    ]

    pub InOrder-sort : (xs : List A) → InOrder less (insertion_sort xs)
    unfolding insertion_sort
    InOrder-sort [] = tt
    InOrder-sort (x ∷ xs) = InOrder-insert x (insertion_sort xs) (InOrder-sort xs)

pub insertion_sort-SortContract : {A : Type 0} → SortContract {A = A} insertion_sort
insertion_sort-SortContract = record {
  rearranges = length-filter-sort;
  in_order = λ less xs asym negtrans. InOrder-sort less asym negtrans xs;
}
