-- ===== src/Http/Stored/Sorting.antt =====
-- Sorting the header names: the same names, each once, in an order that depends on the set alone.
use idemlease.Base.{suc, ◌≡◌, ◌∙◌, refl, Bytes, bytes_eq, bytes_eq_iff, length, All, Bool-cases}
use idemlease.Base.{List, [], ◌∷◌, false, ◌||◌, inl, inr, arith}
use idemlease.Http.Header.{elem, Distinct}
use idemlease.Http.Stored.{string_le, insert_sorted, sort_strings}

elem-insert_sorted :
    (k n : Bytes) (ns : List Bytes) → elem k (insert_sorted n ns) ≡ (bytes_eq n k || elem k ns)
unfolding elem insert_sorted
elem-insert_sorted k n [] = refl
elem-insert_sorted k n (m ∷ ms) = ground (arith, elem-insert_sorted k n ms)

pub elem-sort_strings : (k : Bytes) (ns : List Bytes) → elem k (sort_strings ns) ≡ elem k ns
unfolding elem sort_strings
elem-sort_strings k [] = refl
elem-sort_strings k (n ∷ ns) =
    ground (arith, elem-insert_sorted k n (sort_strings ns), elem-sort_strings k ns)

insert_sorted-Distinct :
    (n : Bytes) (ns : List Bytes) → elem n ns ≡ false → Distinct ns → Distinct (insert_sorted n ns)
unfolding elem insert_sorted
insert_sorted-Distinct n [] h d = (refl, tt)
insert_sorted-Distinct n (m ∷ ms) h d = ground (
  arith,
  insert_sorted-Distinct n ms,
  elem-insert_sorted m n ms,
  bytes_eq_iff m n,
  bytes_eq_iff n m,
)

pub sort_strings-Distinct : (ns : List Bytes) → Distinct ns → Distinct (sort_strings ns)
unfolding elem sort_strings
sort_strings-Distinct [] d = tt
sort_strings-Distinct (n ∷ ns) d =
    insert_sorted-Distinct n (sort_strings ns) (elem-sort_strings n ns ∙ d.0)
      (sort_strings-Distinct ns d.1)

length-insert_sorted : (n : Bytes) (ns : List Bytes) → length (insert_sorted n ns) ≡ suc (length ns)
unfolding insert_sorted
length-insert_sorted n [] = refl
length-insert_sorted n (m ∷ ms) = ground (arith, length-insert_sorted n ms)

pub length-sort_strings : (ns : List Bytes) → length (sort_strings ns) ≡ length ns
unfolding sort_strings
length-sort_strings [] = refl
length-sort_strings (n ∷ ns) =
    length-insert_sorted n (sort_strings ns) ∙ ground (arith, length-sort_strings ns)

insert_sorted-All :
    (P : Bytes → Type 0) (n : Bytes) (ns : List Bytes) → P n → All P ns → All P (insert_sorted n ns)
unfolding insert_sorted
insert_sorted-All P n [] p a = (p, tt)
insert_sorted-All P n (m ∷ ms) p (q, a) = elim (Bool-cases (string_le n m)) [
  | inl le ↦ rw le (p, (q, a))
  | inr gt ↦ rw gt (q, insert_sorted-All P n ms p a)
]

pub sort_strings-All : (P : Bytes → Type 0) (ns : List Bytes) → All P ns → All P (sort_strings ns)
unfolding sort_strings
sort_strings-All P [] a = tt
sort_strings-All P (n ∷ ns) (p, a) =
    insert_sorted-All P n (sort_strings ns) p (sort_strings-All P ns a)
