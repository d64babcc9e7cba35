-- ===== src/Http/Header.antt =====
-- `http.Header`: a map from names to lists of values. A model map lists each name once, in any
-- order, as Go's iteration over a map has none.
use idemlease.Base.{Bytes, bytes_eq, Bool, false, ◌≡◌, refl, Option, none, some}
use idemlease.Base.{List, [], ◌∷◌, ◌++◌, ◌||◌, if◌then◌else◌, arith}
use idemlease.Base.Dict.{Dict, lookup, insert, lookup-insert}

abbrev pub Header : Type 0
Header = Dict (List Bytes)

values_or_nil : Option (List Bytes) → List Bytes
values_or_nil none = []
values_or_nil (some vs) = vs

-- `h[name]`, nil where the name is missing; also `h.Values(name)` for a name in canonical form.
unfoldable pub values : Bytes → Header → List Bytes
unfolding values_or_nil
values name h = values_or_nil (lookup name h)

-- `h[name] = append(h[name], v)`
unfoldable pub append_value : Bytes → Bytes → Header → Header
append_value name v h = insert name (values name h ++ v ∷ []) h

unfoldable pub names : Header → List Bytes
names [] = []
names ((n, vs) ∷ h) = n ∷ names h

unfoldable pub elem : Bytes → List Bytes → Bool
elem k [] = false
elem k (n ∷ ns) = bytes_eq n k || elem k ns

-- No name stands twice.
abbrev pub Distinct : List Bytes → Type 0
Distinct [] = Unit
Distinct (n ∷ ns) = (elem n ns ≡ false) × Distinct ns

pub values-append_value :
    (n v k : Bytes) (h : Header)
    → values k (append_value n v h) ≡ (if bytes_eq n k then values n h ++ v ∷ [] else values k h)
unfolding values append_value
values-append_value n v k h = ground (arith, lookup-insert n k (values n h ++ v ∷ []) h)

-- A name that does not stand in the header has no values.
pub values_of_missing : (k : Bytes) (h : Header) → elem k (names h) ≡ false → values k h ≡ []
unfolding values elem names lookup
values_of_missing k [] e = refl
values_of_missing k ((n, vs) ∷ h) e = ground (arith, values_of_missing k h)

pub values_of_nil : (k : Bytes) → values k [] ≡ []
unfolding values lookup
values_of_nil k = refl

pub values_of_cons :
    (n : Bytes) (vs : List Bytes) (h : Header) (k : Bytes)
    → values k ((n, vs) ∷ h) ≡ (if bytes_eq n k then vs else values k h)
unfolding values lookup
values_of_cons n vs h k = ground arith
