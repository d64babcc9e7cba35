-- ===== src/Pgstore/Housekeeping.antt =====
-- `Sweep` is invisible: it removes expired rows only, and no more than it was asked to.
use idemlease.Base.{
  ℕ, ◌≤◌, ◌≡◌, refl, ap, sym, ◌∙◌, ◌⊎◌, inl, inr, Bytes, bytes_eq, bytes_eq_iff, bytes_eq_refl,
  true, false, Bool-cases, Option, none, some, List, [], ◌∷◌, All, arith,
}
use idemlease.Base.Dict.{Dict, lookup, erase, lookup-erase}
use idemlease.Core.Node.{Node, Ran, came, was_lost, did_not, send-Ran}
use idemlease.Core.Store.{Result, ok, err}
use idemlease.Pgstore.{sweep}
use idemlease.Pgstore.Rows.{Row, Table, is_expired, is_live, is_later, is_past, stamp}
use idemlease.Pgstore.Sweeping.{victims, delete_rows, IsLimit, q_sweep}
use idemlease.Pgstore.Slots.{slot, slots}

-- The primary key.
unfoldable pub IsKeyed : Dict Row → Type 0
IsKeyed [] = Unit
IsKeyed ((key, r) ∷ rows) = (lookup key rows ≡ none) × IsKeyed rows

-- The key has an expired row.
abbrev IsOver : ℕ → Dict Row → Bytes → Type 0
IsOver t rows key = (r : Row) × (lookup key rows ≡ some r) × (is_expired t r ≡ true)

IsOver-tail :
    (t : ℕ) (key : Bytes) (r : Row) (rows : Dict Row) (keys : List Bytes)
    → lookup key rows ≡ none
    → All (IsOver t rows) keys
    → All (IsOver t ((key, r) ∷ rows)) keys
unfolding lookup
IsOver-tail t key r rows [] fresh over = tt
IsOver-tail t key r rows (j ∷ keys) fresh ((x, there, e), over) = (
  elim (Bool-cases (bytes_eq key j)) [
    | inl same ↦
        let here = (bytes_eq_iff key j).0 same in
        let gone : lookup j rows ≡ none = rw (sym here) fresh in cc
    | inr differs ↦ (x, rw (differs, there) refl, e)
  ],
  IsOver-tail t key r rows keys fresh over,
)

victims-IsOver : (t : ℕ) (rows : Dict Row) → IsKeyed rows → All (IsOver t rows) (victims t rows)
unfolding victims IsKeyed lookup
victims-IsOver t [] keyed = tt
victims-IsOver t ((key, r) ∷ rows) (fresh, keyed) =
    let all = victims-IsOver t rows keyed in
    let kept = IsOver-tail t key r rows (victims t rows) fresh all in
    elim (Bool-cases (is_expired t r)) [
      | inl over ↦ rw over ((r, rw (bytes_eq_refl key) refl, over), kept)
      | inr fresh_row ↦ rw fresh_row kept
    ]

delete_rows-lookup :
    (P : Bytes → Type 0) (keys : List Bytes) (rows : Dict Row) (j : Bytes)
    → All P keys
    → (lookup j (delete_rows keys rows) ≡ lookup j rows)
      ⊎ ((lookup j (delete_rows keys rows) ≡ none) × P j)
unfolding delete_rows
delete_rows-lookup P [] rows j all = inl refl
delete_rows-lookup P (key ∷ keys) rows j (p, all) =
    elim (delete_rows-lookup P keys (erase key rows) j all) [
      | inr gone ↦ inr gone
      | inl same ↦ elim (Bool-cases (bytes_eq key j)) [
        | inl here ↦ inr (
          same ∙ rw (lookup-erase key j rows, here) refl,
          rw (sym ((bytes_eq_iff key j).0 here)) p,
        )
        | inr other ↦ inl (same ∙ rw (lookup-erase key j rows, other) refl)
      ]
    ]

-- An expired row is not live.
is_past-is_later : (o : Option ℕ) (t : ℕ) → is_past o t ≡ true → is_later o t ≡ false
unfolding is_past is_later
is_past-is_later none t e = refl
is_past-is_later (some u) t e = ground arith

is_live-expired : (t : ℕ) (r : Row) → is_expired t r ≡ true → is_live t r ≡ false
unfolding is_expired is_live
is_live-expired t r e = ground (arith, is_past-is_later r.record_expires_at t)

slot-over :
    (t : ℕ) (rows rows' : Dict Row) (key : Bytes)
    → (lookup key rows' ≡ lookup key rows) ⊎ ((lookup key rows' ≡ none) × IsOver t rows key)
    → slot key t (lookup key rows') ≡ slot key t (lookup key rows)
unfolding slot
slot-over t rows rows' key (inl same) = rw same refl
slot-over t rows rows' key (inr (gone, (r, there, over))) =
    rw (gone, there, is_live-expired t r over) refl

erase-IsKeyed : (key : Bytes) (rows : Dict Row) → IsKeyed rows → IsKeyed (erase key rows)
unfolding erase IsKeyed
erase-IsKeyed key [] keyed = tt
erase-IsKeyed key ((j, r) ∷ rows) (fresh, keyed) =
    let rest = erase-IsKeyed key rows keyed in
    elim (Bool-cases (bytes_eq j key)) [
      | inl here ↦ rw here rest
      | inr other ↦ rw other (ground (arith, lookup-erase key j rows, fresh), rest)
    ]

delete_rows-IsKeyed :
    (keys : List Bytes) (rows : Dict Row) → IsKeyed rows → IsKeyed (delete_rows keys rows)
unfolding delete_rows
delete_rows-IsKeyed [] rows keyed = keyed
delete_rows-IsKeyed (key ∷ keys) rows keyed =
    delete_rows-IsKeyed keys (erase key rows) (erase-IsKeyed key rows keyed)

abbrev rows_of : Result ℕ → ℕ
rows_of (ok n) = n
rows_of (err e) = 0

module _ (pick : ℕ → List Bytes → List Bytes) (picks : IsLimit pick) where
  q_sweep_lem :
      (limit : ℕ) (s : Table)
      → IsKeyed s.rows
      → let (n, s') = q_sweep pick limit s in
        ((key : Bytes) → slots s' key ≡ slots s key) × IsKeyed s'.rows × (n ≤ limit)
  unfolding q_sweep
  q_sweep_lem limit s keyed =
      let t = stamp s in
      let keys = pick limit (victims t s.rows) in
      let over = picks.of_them limit _ (IsOver t s.rows) (victims-IsOver t s.rows keyed) in
      (
        λ key.
            slot-over t s.rows (delete_rows keys s.rows) key
              (delete_rows-lookup (IsOver t s.rows) keys s.rows key over),
        delete_rows-IsKeyed keys s.rows keyed,
        picks.few limit (victims t s.rows),
      )

  sweep-Ran :
      (limit : ℕ) {s s' : Table} {res : Result ℕ}
      → IsKeyed s.rows
      → Ran (q_sweep pick limit) s res s'
      → ((key : Bytes) → slots s' key ≡ slots s key)
        × IsKeyed s'.rows
        × ((n : ℕ) → res ≡ ok n → n ≤ limit)
  sweep-Ran limit {s = s} keyed came =
      let (same, keyed', few) = q_sweep_lem limit s keyed in
      (
        same,
        keyed',
        λ n e. let same_count : (q_sweep pick limit s).0 ≡ n = ap rows_of e in omega arith,
      )
  sweep-Ran limit {s = s} keyed (was_lost e) =
      let (same, keyed', few) = q_sweep_lem limit s keyed in (same, keyed', λ n e. cc)
  sweep-Ran limit keyed (did_not e) = (λ key. refl, keyed, λ n e. cc)

  -- Whichever rows the server picks within the limit, and where no two rows have the same key: whatever
  -- the network loses, a sweep changes no record that is live, keeps the keys distinct, and reports at
  -- most as many deleted rows as its limit.
  pub sweep-slots :
      (limit : ℕ) (w : Node Table)
      → IsKeyed w.server.rows
      → let (res, w') = sweep pick limit w in
        ((key : Bytes) → slots w'.server key ≡ slots w.server key)
        × IsKeyed w'.server.rows
        × ((n : ℕ) → res ≡ ok n → n ≤ limit)
  unfolding sweep
  sweep-slots limit w keyed = sweep-Ran limit keyed (send-Ran (q_sweep pick limit) w)
