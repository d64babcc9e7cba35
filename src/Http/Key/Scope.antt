-- ===== src/Http/Key/Scope.antt =====
-- Keys of different scopes never collide in the store.
use idemlease.Base.{◌≡◌, Bytes, All, [], ◌∷◌, ◌++◌, arith}
use idemlease.Http.Key.{store_key}
use idemlease.Http.Key.Grammar.{IsPlain, IsKey}

zero_not-IsPlain : (s k : Bytes) → ¬ All IsPlain (s ++ 0 ∷ k)
zero_not-IsPlain [] k h = absurd (omega arith)
zero_not-IsPlain (c ∷ s) k h = zero_not-IsPlain s k h.1

join_injective :
    (s t k j : Bytes) → All IsPlain k → All IsPlain j → s ++ 0 ∷ k ≡ t ++ 0 ∷ j → (s ≡ t) × (k ≡ j)
join_injective [] [] k j pk pj e = ground arith
join_injective [] (d ∷ t) k j pk pj e =
    let same : k ≡ t ++ 0 ∷ j = ground arith in absurd (zero_not-IsPlain t j (rw same at pk))
join_injective (c ∷ s) [] k j pk pj e =
    let same : j ≡ s ++ 0 ∷ k = ground arith in absurd (zero_not-IsPlain s k (rw same at pj))
join_injective (c ∷ s) (d ∷ t) k j pk pj e =
    let same : s ++ 0 ∷ k ≡ t ++ 0 ∷ j = ground arith in
    ground (arith, join_injective s t k j pk pj same)

-- Two requests whose parsed keys keep the grammar address the same record only if both the scopes
-- and the keys are equal; so a scoped key never meets an unscoped one either. The scopes are any
-- byte strings, the empty one being no scope.
pub store_key_injective :
    (scope scope' k k' : Bytes)
    → IsKey k
    → IsKey k'
    → store_key scope k ≡ store_key scope' k'
    → (scope ≡ scope') × (k ≡ k')
unfolding store_key
store_key_injective [] [] k k' h h' e = ground arith
store_key_injective [] (d ∷ t) k k' h h' e = absurd (zero_not-IsPlain (d ∷ t) k' (rw e at h.2))
store_key_injective (c ∷ s) [] k k' h h' e = absurd (zero_not-IsPlain (c ∷ s) k (rw (← e) at h'.2))
store_key_injective (c ∷ s) (d ∷ t) k k' h h' e = join_injective (c ∷ s) (d ∷ t) k k' h.2 h'.2 e
