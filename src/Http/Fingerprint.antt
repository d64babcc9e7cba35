-- ===== src/Http/Fingerprint.antt =====
-- httpidem/fingerprint.go: what is hashed. SHA-256 itself is a parameter of the middleware.
use idemlease.Base.{ℕ, ◌≡◌, ◌≢◌, Bytes, All, [], ◌∷◌, ◌++◌, arith}
use idemlease.Base.Text.{to_upper}

abbrev pub newline : ℕ
newline = 10

abbrev pub question : ℕ
question = b'?'

-- The bytes that `Fingerprint` writes into the hash, from the method, the escaped path, the raw query
-- and the body.
unfoldable pub preimage : Bytes → Bytes → Bytes → Bytes → Bytes
preimage method path query body =
    to_upper method ++ newline ∷ (path ++ question ∷ (query ++ newline ∷ body))

abbrev pub Lacks : ℕ → Bytes → Type 0
Lacks c = All (λ b. b ≢ c)

-- A separator that neither first part holds is found at one place only.
pub split_unique :
    (c : ℕ) (s t x y : Bytes) → Lacks c s → Lacks c t → s ++ c ∷ x ≡ t ++ c ∷ y → (s ≡ t) × (x ≡ y)
split_unique c [] [] x y ls lt e = ground arith
split_unique c [] (b ∷ t) x y ls lt e = absurd (lt.0 (ground arith))
split_unique c (a ∷ s) [] x y ls lt e = absurd (ls.0 (ground arith))
split_unique c (a ∷ s) (b ∷ t) x y ls lt e =
    let rest : s ++ c ∷ x ≡ t ++ c ∷ y = ground arith in
    ground (arith, split_unique c s t x y ls.1 lt.1 rest)

-- Requests with different methods (but for case), paths, queries or bodies are hashed from different
-- bytes, if no method or query holds a newline and no escaped path a question mark.
pub preimage_injective :
    (method path query body method' path' query' body' : Bytes)
    → Lacks newline (to_upper method)
    → Lacks newline (to_upper method')
    → Lacks question path
    → Lacks question path'
    → Lacks newline query
    → Lacks newline query'
    → preimage method path query body ≡ preimage method' path' query' body'
    → (to_upper method ≡ to_upper method') × (path ≡ path') × (query ≡ query') × (body ≡ body')
unfolding preimage
preimage_injective m p q b m' p' q' b' lm lm' lp lp' lq lq' e =
    let (em, e1) = split_unique newline _ _ _ _ lm lm' e in
    let (ep, e2) = split_unique question p p' _ _ lp lp' e1 in
    let (eq, eb) = split_unique newline q q' b b' lq lq' e2 in (em, ep, eq, eb)
