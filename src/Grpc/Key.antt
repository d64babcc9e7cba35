-- ===== src/Grpc/Key.antt =====
-- grpcidem/grpcidem.go: the idempotency key among a call's metadata, and the bytes of its fingerprint.
use idemlease.Base.{
  ◌≡◌, ◌↔◌, Bytes, length, ltb, ◌==◌, ◌||◌, if◌then◌else◌, false, Bool, Option, none, some, List,
  [], ◌∷◌, ◌++◌, All, arith,
}
use idemlease.Http.Key.{is_control}
use idemlease.Http.Key.Grammar.{IsPlain, IsKey}
use idemlease.Http.Fingerprint.{Lacks, newline, split_unique}
use idemlease.Base.{refl}

pub data CallKey : Type 0 where
  call_key : Bytes → CallKey
  key_missing key_invalid : CallKey

-- The loop of `validateKey`.
unfoldable pub any_control : Bytes → Bool
any_control [] = false
any_control (c ∷ cs) = is_control c || any_control cs

-- `validateKey`
unfoldable pub validate_key : Bytes → CallKey
validate_key k =
    if length k == 0 || ltb 255 (length k)
    then key_invalid
    else if any_control k
    then key_invalid
    else call_key k

-- `keyFromContext`, on the metadata's entries for the key, if there is metadata.
unfoldable pub key_from_context : Option (List Bytes) → CallKey
key_from_context none = key_missing
key_from_context (some []) = key_missing
key_from_context (some (v ∷ [])) = validate_key v
key_from_context (some (v ∷ w ∷ vs)) = key_invalid

-- What `fingerprint` hashes.
unfoldable pub call_preimage : Bytes → Bytes → Bytes
call_preimage full_method request_bytes = full_method ++ 10 ∷ request_bytes

any_control_iff : (k : Bytes) → (any_control k ≡ false) ↔ All IsPlain k
unfolding any_control
any_control_iff [] = ((λ h. tt), (λ h. refl))
any_control_iff (c ∷ cs) =
    ((λ h. ground (arith, any_control_iff cs)), (λ h. ground (arith, (any_control_iff cs).1 h.1)))

-- A single entry is accepted exactly if it has 1 to 255 bytes with no control character among them,
-- as in the raw form of the HTTP header, and it is the key as it stands; an entry list of any other
-- length gives no key.
pub key_from_context_iff :
    (entries : Option (List Bytes)) (k : Bytes)
    → (key_from_context entries ≡ call_key k) ↔ ((entries ≡ some (k ∷ [])) × IsKey k)
unfolding key_from_context validate_key
key_from_context_iff none k = ((λ h. absurd (cc)), (λ h. absurd (cc)))
key_from_context_iff (some []) k = ((λ h. absurd (cc)), (λ h. absurd (cc)))
key_from_context_iff (some (v ∷ [])) k = (
  (λ h. ground (arith, any_control_iff v)),
  (λ h. let same : v ≡ k = cc in ground (arith, any_control_iff v, same)),
)
key_from_context_iff (some (v ∷ w ∷ vs)) k = ((λ h. absurd (cc)), (λ h. absurd (cc)))

-- Calls of different methods or with different request bytes are hashed from different bytes, if no
-- method name holds a newline.
pub call_preimage_injective :
    (m b m' b' : Bytes)
    → Lacks newline m
    → Lacks newline m'
    → call_preimage m b ≡ call_preimage m' b'
    → (m ≡ m') × (b ≡ b')
unfolding call_preimage
call_preimage_injective m b m' b' lm lm' e = split_unique newline m m' b b' lm lm' e
