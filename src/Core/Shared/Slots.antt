-- ===== src/Core/Shared/Slots.antt =====
-- A store on a server keeps entries of its own kind under the keys; each stands for a record or for
-- none. One entry is written or deleted.
use idemlease.Base.{
  ◌≡◌, refl, inl, inr, Bytes, bytes_eq, bytes_eq_iff, if◌then◌else◌, Bool-cases, Option,
}
use idemlease.Core.Record.{Record}
use idemlease.Core.Spec.{update}

module _ {X : Type 0} (slot : Bytes → Option X → Option Record) (IsGood : Option X → Type 0) where
  -- The records change under that key only, and good entries stay good.
  pub written-update :
      (key : Bytes) (o : Option X) (before after : Bytes → Option X)
      → ((j : Bytes) → after j ≡ (if bytes_eq key j then o else before j))
      → IsGood o
      → ((j : Bytes) → IsGood (before j))
      → ((j : Bytes) → IsGood (after j))
        × ((j : Bytes) → slot j (after j) ≡ update (λ i. slot i (before i)) key (slot key o) j)
  unfolding update
  written-update key o before after same new good = (
    λ j. elim (Bool-cases (bytes_eq key j)) [
      | inl e ↦ rw (same j, e) new
      | inr e ↦ rw (same j, e) (good j)
    ],
    λ j. elim (Bool-cases (bytes_eq key j)) [
      | inl e ↦ rw (same j, e, (bytes_eq_iff key j).0 e) refl
      | inr e ↦ rw (same j, e) refl
    ],
  )
