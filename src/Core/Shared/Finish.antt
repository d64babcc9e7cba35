-- ===== src/Core/Shared/Finish.antt =====
-- idemlease.go, `Finish` over a shared store.
use idemlease.Base.{
  ℕ, ◌*◌, ◌≡◌, ◌≢◌, refl, ◌⊎◌, inl, inr, Bytes, Bool, true, false, Option, none, some, arith,
  Option-cases,
}
use idemlease.Base.Decimal.{IsInt64}
use idemlease.Core.Time.{Time, at_least_one_ms}
use idemlease.Core.Store.{Sentinel, Error, Result, ok, err, Store, is, token_mismatch, not_found}
use idemlease.Core.Lease.{
  Decision, persist, discard, invalid_decision, Options, record_ttl, normalize, finish,
}
use idemlease.Core.Shared.{
  View, Fades, Fades-refl, complete_now, release_now, Refused, Took, Call, IsShared,
}

-- The transition that a decision asks for; the ticks are those of the record's TTL.
abbrev pub concluded : ℕ → Decision → Bytes → Bytes → Bytes → View → Option Sentinel × View
concluded n persist key token payload a = complete_now n key token payload a
concluded n discard key token payload a = release_now key token a
concluded n (invalid_decision d) key token payload a = (none, a)

-- What the result says of the transition `f`: it happened under this token, it was refused, or nobody knows.
abbrev pub Concludes : (View → Option Sentinel × View) → Result Bool → View → View → Type 0
Concludes f (ok false) before after = Took f (λ e. e ≡ none) before after
Concludes f (ok true) before after = Took f (λ e. e ≢ none) before after
Concludes f (err e) before after = Fades before after ⊎ Took f (λ e. Unit {0}) before after

normalize_fault :
    (o : Option Error) (x : Error)
    → o ≡ some x
    → is x token_mismatch ≡ false
    → is x not_found ≡ false
    → normalize o ≡ err x
unfolding normalize
normalize_fault o x failed other other' = rw (failed, other, other') refl

normalize-Refused : (o : Option Error) (s : Sentinel) → Refused (some s) o → normalize o ≡ ok true
unfolding normalize
normalize-Refused o s (x, failed, inl e) = rw (failed, e) refl
normalize-Refused o s (x, failed, inr e) = ground (arith, failed, e)

normalize-Concludes :
    (f : View → Option Sentinel × View) (o : Option Error) (before after : View)
    → Call f (λ s. Refused s o) o before after
    → Concludes f (normalize o) before after
unfolding normalize
normalize-Concludes f o before after (inr ((x, failed, _, other, other'), rest)) =
    rw (normalize_fault o x failed other other') rest
normalize-Concludes f o before after (inl t) = elim (Option-cases (f t.at).0) [
  | inl done ↦
      let said = rw done at t.answered in
      rw said (record { at = t.at; faded = t.faded; answered = done; left = t.left })
  | inr (e, lost) ↦
      rw (normalize-Refused o e (rw lost at t.answered))
        (record { at = t.at; faded = t.faded; answered = λ same. cc; left = t.left })
]

module _ {W : Type 0} {ticks : ℕ} {clock : W → Time} {Inv : W → Type 0} {slots : W → View}
    {s : Store W} (law : IsShared ticks clock Inv slots s) where
  -- Over a store that keeps the shared contract, and with a record TTL that is an int64: the
  -- result of `Finish` is right at some instant between the call and its return. `leaseLost` is
  -- false where the transition happened, which it does only under the token of a reserved record,
  -- and true where it was refused; after an error it may have happened or not. A completed record
  -- stands from that instant until the record limit, a millisecond at least, by the server's clock.
  pub finish-Concludes :
      (key token payload : Bytes) (d : Decision) (o : Options) (w : W)
      → IsInt64 (record_ttl o)
      → Inv w
      → let (res, w') = finish s key token d payload o w in
        Inv w'
        × Concludes
            (concluded (at_least_one_ms (record_ttl o) * ticks) d key token payload)
            res
            (slots w)
            (slots w')
  unfolding finish
  finish-Concludes key token payload persist o w fits inv =
      let (inv', called) = law.complete_law key token payload (record_ttl o) w fits inv in
      (
        inv',
        normalize-Concludes
            (complete_now (at_least_one_ms (record_ttl o) * ticks) key token payload) _ _ _ called,
      )
  finish-Concludes key token payload discard o w fits inv =
      let (inv', called) = law.release_law key token w inv in
      (inv', normalize-Concludes (release_now key token) _ _ _ called)
  finish-Concludes key token payload (invalid_decision d) o w fits inv = (inv, inl (Fades-refl _))
