-- ===== src/Pgstore/Sweeping.antt =====
-- pgstore/pgstore.go: the statement of `Sweep`. Which of the expired rows a LIMIT takes is the server's
-- choice, and a parameter.
use idemlease.Base.{ℕ, ◌+◌, ◌≤◌, Bytes, if◌then◌else◌, List, [], ◌∷◌, All}
use idemlease.Base.Dict.{Dict, erase}
use idemlease.Pgstore.Rows.{Row, Table, is_expired, stamp}

-- `SELECT key FROM t WHERE` expired, before the limit
unfoldable pub victims : ℕ → Dict Row → List Bytes
victims t [] = []
victims t ((key, r) ∷ rows) =
    let rest = victims t rows in if is_expired t r then key ∷ rest else rest

-- `DELETE FROM t WHERE key IN` those
unfoldable pub delete_rows : List Bytes → Dict Row → Dict Row
delete_rows [] rows = rows
delete_rows (key ∷ keys) rows = delete_rows keys (erase key rows)

unfoldable pub count : List Bytes → ℕ
count [] = 0
count (key ∷ keys) = 1 + count keys

-- What a LIMIT documents: it takes rows of the result only, and at most so many.
pub record IsLimit (pick : ℕ → List Bytes → List Bytes) : Type 1 where
  pub of_them : (n : ℕ) (keys : List Bytes) (P : Bytes → Type 0) → All P keys → All P (pick n keys)
  pub few : (n : ℕ) (keys : List Bytes) → count (pick n keys) ≤ n

-- `qSweep`, with the number of rows affected; `pick` is the server's choice for `LIMIT $1`
unfoldable pub q_sweep : (ℕ → List Bytes → List Bytes) → ℕ → Table → ℕ × Table
q_sweep pick limit s =
    let keys = pick limit (victims (stamp s) s.rows) in
    (count keys, record s { rows = delete_rows keys s.rows })
