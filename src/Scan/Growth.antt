-- ===== src/Scan/Growth.antt =====
-- `hsed_list_init`, `hsed_list_free` and `list_push`: an array that doubles.
use hsed.Base.{
  ℕ, ◌+◌, ◌*◌, ◌≤◌, ◌≡◌, refl, false, List, [], ◌∷◌, ◌++◌, length, length-append, Option, none,
  some, ◌==◌, if◌then◌else◌, arith, ◌⊎◌, inl, inr, Bool-cases,
}
use hsed.Scan.System.{System}

-- The first `count` cells of `items`; the others are not read.
pub record Grown {ℓ} (A : Type ℓ) : Type ℓ where
  pub items : List A
  pub count : ℕ
  pub capacity : ℕ

module _ {ℓ} {A : Type ℓ} where
  unfoldable pub list_init : Grown A
  list_init = record { items = []; count = 0; capacity = 0 }

  -- Whatever was held is released.
  unfoldable pub list_free : Grown A → Grown A
  list_free list = record { items = []; count = 0; capacity = 0 }

  abbrev pub next_capacity : ℕ → Grown A → ℕ
  next_capacity first list = if list.capacity == 0 then first else list.capacity * 2

  -- `if (count == capacity)`: the array with a free cell, or `none` where `realloc` fails.
  reserve : System → ℕ → Grown A → Option (Grown A)
  reserve sys first list =
      let newcap = next_capacity first list in
      if list.count == list.capacity
      then (if sys.has_memory newcap then some (record list { capacity = newcap }) else none)
      else some list

  append_item : A → Option (Grown A) → Option (Grown A)
  append_item e none = none
  append_item e (some list) =
      some (record list { items = list.items ++ e ∷ []; count = list.count + 1 })

  -- `first` is the capacity of the first allocation; `none` is the result -1.
  unfoldable pub push_from : System → ℕ → Grown A → A → Option (Grown A)
  unfolding reserve append_item
  push_from sys first list e = append_item e (reserve sys first list)

  -- The result list of entries starts with 64 cells.
  unfoldable pub list_push : System → Grown A → A → Option (Grown A)
  list_push sys list e = push_from sys 64 list e

  pub record IsValid (list : Grown A) : Type ℓ where
    pub counted : list.count ≡ length list.items
    pub within : list.count ≤ list.capacity

  pub list_init-IsValid : IsValid list_init
  unfolding list_init
  list_init-IsValid = record { counted = refl; within = omega arith }

  -- On a list whose count fits, with a first capacity of at least 1, a push stores the element behind
  -- the others and inside the array; it fails only where an array
  -- that is full cannot grow, and then nothing is stored.
  pub push_from_lem :
      (sys : System) (first : ℕ) (list : Grown A) (e : A)
      → 1 ≤ first
      → IsValid list
      → ((r : Grown A) × (push_from sys first list e ≡ some r)
          × IsValid r
          × (r.items ≡ list.items ++ e ∷ []))
        ⊎ ((push_from sys first list e ≡ none)
            × (list.count ≡ list.capacity)
            × (sys.has_memory (next_capacity first list) ≡ false))
  unfolding push_from
  push_from_lem sys first list e h v = elim (Bool-cases (list.count == list.capacity)) [
    | inr free ↦ inl (
      record list { items = list.items ++ e ∷ []; count = list.count + 1 },
      rw free,
      record {
        counted = omega (arith, v.counted, length-append list.items (e ∷ []));
        within = ground (arith, v.within);
      },
      refl,
    )
    | inl full ↦ elim (Bool-cases (sys.has_memory (next_capacity first list))) [
      | inr lacks ↦ inr (rw (full, lacks), ground arith, lacks)
      | inl has ↦ inl (
        record {
          items = list.items ++ e ∷ [];
          count = list.count + 1;
          capacity = next_capacity first list;
        },
        rw (full, has),
        record {
          counted = omega (arith, v.counted, length-append list.items (e ∷ []));
          within = ground (arith, v.within);
        },
        refl,
      )
    ]
  ]
