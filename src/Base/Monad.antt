-- ===== src/Base/Monad.antt =====
-- Code that reads and changes the world: explicit state passing.
abbrev pub M : Type 0 → Type 0 → Type 0
M W A = W → A × W

abbrev pub pure : {W A : Type 0} → A → M W A
pure a w = (a, w)

infixl 5 ◌>>=◌ ◌>>◌
abbrev pub ◌>>=◌ : {W A B : Type 0} → M W A → (A → M W B) → M W B
◌>>=◌ m f w = let (a, w') = m w in f a w'

abbrev pub ◌>>◌ : {W A B : Type 0} → M W A → M W B → M W B
m >> k = m >>= λ _. k
