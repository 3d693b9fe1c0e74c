-- ===== src/Scan/Run/Insertion.antt =====
-- An insertion sort with a comparison function, for the tests: it behaves as `Qsort` asks.
use mathlib.Core.List.{Perm}
use mathlib.Core.List.Perm
use hsed.Base.{
  ◌≡◌, ℤ, pos, ltb_ℤ, inl, inr, true, Bool-cases, List, [], ◌∷◌, All, All-map, if◌then◌else◌, arith,
}
use hsed.Entry.{Entry}
use hsed.Scan.Run.{Before, IsOrder, Ordered, Qsort}

module _ (cmp : Entry → Entry → ℤ) where
  insert : Entry → List Entry → List Entry
  insert e [] = e ∷ []
  insert e (f ∷ es) =
      let rest = insert e es in if ltb_ℤ (pos 0) (cmp e f) then f ∷ rest else e ∷ f ∷ es

  unfoldable pub insertion_sort : List Entry → List Entry
  unfolding insert
  insertion_sort [] = []
  insertion_sort (e ∷ es) = insert e (insertion_sort es)

  insert-Perm : (e : Entry) (es : List Entry) → Perm (insert e es) (e ∷ es)
  unfolding insert
  insert-Perm e [] = Perm.refl (e ∷ [])
  insert-Perm e (f ∷ es) = elim (Bool-cases (ltb_ℤ (pos 0) (cmp e f))) [
    | inl after ↦
        rw (after, insert) (Perm.trans (Perm.cons f (insert-Perm e es)) (Perm.swap e f es))
    | inr before ↦ rw (before, insert) (Perm.refl (e ∷ f ∷ es))
  ]

  pub insertion_sort-Perm : (es : List Entry) → Perm (insertion_sort es) es
  unfolding insertion_sort
  insertion_sort-Perm [] = Perm.refl []
  insertion_sort-Perm (e ∷ es) =
      Perm.trans (insert-Perm e (insertion_sort es)) (Perm.cons e (insertion_sort-Perm es))

  insert-All {κ} :
      (P : Entry → Type κ) (e : Entry) (es : List Entry) → P e → All P es → All P (insert e es)
  unfolding insert
  insert-All P e [] p h = (p, tt)
  insert-All P e (f ∷ es) p h = elim (Bool-cases (ltb_ℤ (pos 0) (cmp e f))) [
    | inl after ↦ rw (after, insert) (h.0, insert-All P e es p h.1)
    | inr before ↦ rw (before, insert) (p, h)
  ]

  other_way : (e f : Entry) → IsOrder cmp → ltb_ℤ (pos 0) (cmp e f) ≡ true → Before cmp f e
  other_way e f order after = elim (order.total e f) [
    | inl first ↦ absurd (ground arith)
    | inr second ↦ second
  ]

  insert-Ordered :
      (e : Entry) (es : List Entry) → IsOrder cmp → Ordered cmp es → Ordered cmp (insert e es)
  unfolding insert
  insert-Ordered e [] order h = (tt, tt)
  insert-Ordered e (f ∷ es) order h = elim (Bool-cases (ltb_ℤ (pos 0) (cmp e f))) [
    | inl after ↦
        rw (after, insert)
          (
            insert-All (Before cmp f) e es (other_way e f order after) h.0,
            insert-Ordered e es order h.1,
          )
    | inr before ↦
        let first : Before cmp e f = ground arith in
        rw (before, insert) ((first, All-map es (λ g k. order.transitive e f g first k) h.0), h)
  ]

  pub insertion_sort-Ordered : (es : List Entry) → IsOrder cmp → Ordered cmp (insertion_sort es)
  unfolding insertion_sort
  insertion_sort-Ordered [] order = tt
  insertion_sort-Ordered (e ∷ es) order =
      insert-Ordered e (insertion_sort es) order (insertion_sort-Ordered es order)

abbrev pub insertion_qsort : Qsort
insertion_qsort = record {
  sort = insertion_sort;
  sort_perm = insertion_sort-Perm;
  sort_ordered = insertion_sort-Ordered;
}
