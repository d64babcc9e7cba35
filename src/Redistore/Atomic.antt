-- ===== src/Redistore/Atomic.antt =====
-- The store keeps the shared contract: each call is one script, at one instant of the server.
use idemlease.Base.{ℕ, ◌*◌, ◌≤◌, ◌<◌, ◌^◌, ◌≡◌, refl, inl, inr, Bytes, Option, none, some, arith}
use idemlease.Base.Int.{pos, negsuc}
use idemlease.Base.Decimal.{format_int, IsInt64}
use idemlease.Core.Time.{at_least_one_ms, Time, Duration, add, sub}
use idemlease.Core.Record.{Record}
use idemlease.Core.Store.{Result, ok, err, is, Sentinel}
use idemlease.Core.Shared.{
  Fades, Fades-refl, Fades-trans, reserve_now, complete_now, release_now, Found, Refused, Call,
  View, Reserved, IsReservation, IsShared,
}
use idemlease.Core.Node
use idemlease.Core.Node.{send, Node, Ran, came, was_lost, did_not, send-Ran}
use idemlease.Redistore.{
  now, redis_key, reserve, complete, release, reserved_reply, existing, status_of_reply, store,
}
use idemlease.Redistore.Server.{Hash, Redis, IsRedis, Value, text, number, array, nothing}
use idemlease.Redistore.Scripts.{state_reserved, reserve_script, complete_script, release_script}
use idemlease.Redistore.Reply.{px_until, unix_milli}
use idemlease.Redistore.Slots.{slots, AreKept, now_lem}
use idemlease.Redistore.Steps.{Reads, reserve_step}
use idemlease.Redistore.Transitions.{Says, complete_step, release_step}

-- A TTL that `PEXPIRE` takes.
at_least_one_ms_bounds :
    (d : Duration) → IsInt64 d → (0 < at_least_one_ms d) × (at_least_one_ms d < 2 ^ 63)
unfolding at_least_one_ms
at_least_one_ms_bounds (pos n) h = ground arith
at_least_one_ms_bounds (negsuc n) h = (omega arith, omega arith)

times_one : (n : ℕ) → n * 1 ≡ n
times_one n = omega arith

sub-IsInt64 : (t u : Time) → IsInt64 (sub t u)
sub-IsInt64 t u = ground arith

module _ {K : Type 0} {r : Redis K} {keys : K → Bytes → Option Hash} {time : K → ℕ}
    (law : IsRedis r keys time) (prefix : Bytes) where
  abbrev pub contents : Node K → View
  contents w = slots keys time prefix w.server

  abbrev pub IsStored : Node K → Type 0
  IsStored w = AreKept keys time prefix w.server

  -- The calls whose reply is an error or nothing.
  status_call :
      {f : View → Option Sentinel × View} (script : K → Value × K) (w0 w : Node K)
      (reply : Result Value) (k' : K)
      → IsStored w
      → Fades (contents w0) (contents w)
      → (let (v, s') = script w.server in
          let (e, a) = f (contents w) in
          AreKept keys time prefix s' × Fades a (slots keys time prefix s') × Says e v)
      → Ran script w.server reply k'
      → AreKept keys time prefix k'
        × Call f
            (λ s. Refused s (status_of_reply r prefix reply))
            (status_of_reply r prefix reply)
            (contents w0)
            (slots keys time prefix k')
  unfolding status_of_reply is
  status_call script w0 w reply k' kept faded (kept', left, (status, is_said, answered)) came = (
    kept',
    inl (record { at = contents w; faded = faded; answered = rw is_said answered; left = left }),
  )
  status_call script w0 w reply k' kept faded (kept', left, (status, is_said, answered))
        (was_lost e) =
      (
        kept',
        inr (
          (_, refl, refl, refl, refl),
          inr (record { at = contents w; faded = faded; answered = tt; left = left }),
        ),
      )
  status_call script w0 w reply k' kept faded (kept', left, (status, is_said, answered))
        (did_not e) =
      (kept, inr ((_, refl, refl, refl, refl), inl faded))

  complete_lem :
      (key token payload : Bytes) (ttl : Duration) (w : Node K)
      → IsInt64 ttl
      → IsStored w
      → let (e, w') = complete r prefix key token payload ttl w in
        IsStored w'
        × Call
            (complete_now (at_least_one_ms ttl * 1) key token payload)
            (λ s. Refused s e)
            e
            (contents w)
            (contents w')
  unfolding complete
  complete_lem key token payload ttl w fits kept =
      let (t, w1) = now r prefix w in
      let (kept1, faded) = now_lem law prefix w kept in
      let (low, high) = at_least_one_ms_bounds ttl fits in
      let script =
        complete_script r (redis_key prefix key) token payload (format_int (unix_milli (add t ttl)))
          (format_int (pos (at_least_one_ms ttl))) in
      let call =
        status_call script w w1 _ _ kept1 faded
          (complete_step law prefix key token payload (add t ttl) (at_least_one_ms ttl) w1.server
            low high kept1)
          (send-Ran script w1) in
      rw (times_one (at_least_one_ms ttl)) call

  release_lem :
      (key token : Bytes) (w : Node K)
      → IsStored w
      → let (e, w') = release r prefix key token w in
        IsStored w' × Call (release_now key token) (λ s. Refused s e) e (contents w) (contents w')
  unfolding release
  release_lem key token w kept =
      let script = release_script r (redis_key prefix key) token in
      status_call script w w _ _ kept (Fades-refl _)
        (release_step law prefix key token w.server kept) (send-Ran script w)

  -- What `Reserve` makes of the reply, at a later reading of the clock.
  reserved_reply_lem :
      (key : Bytes) (found : Option Record) (v : Value) (w : Node K)
      → Reads key found v
      → IsStored w
      → let (reply, w') = reserved_reply r prefix key (ok v) w in
        IsStored w' × Fades (contents w) (contents w') × Found found reply
  unfolding reserved_reply existing is
  reserved_reply_lem key none v w said kept = rw said (kept, Fades-refl _, refl)
  reserved_reply_lem key (some there) v w (vs, said, reads) kept =
      let (kept', faded) = now_lem law prefix w kept in
      let (x, read, same) = reads (now r prefix w).0 in
      rw (said, read) (kept', faded, (x, _, refl, refl, same))

  reserved_reply_clock :
      (key : Bytes) (reply : Result Value) (w : Node K)
      → w.clock ≤ (reserved_reply r prefix key reply w).1.clock
  unfolding reserved_reply
  reserved_reply_clock key (err e) w = omega arith
  reserved_reply_clock key (ok (text v)) w = omega arith
  reserved_reply_clock key (ok (array vs)) w = Node.now_later r.pass w
  reserved_reply_clock key (ok (number n)) w = omega arith
  reserved_reply_clock key (ok nothing) w = omega arith

  reserve_call :
      (rec : Record) (n : ℕ) (script : K → Value × K) (w0 w w' : Node K) (reply : Result Value)
      {k' : K}
      → w'.server ≡ k'
      → IsStored w
      → Fades (contents w0) (contents w)
      → (let (v, s') = script w.server in
          let (found, a) = reserve_now n rec (contents w) in
          AreKept keys time prefix s' × Fades a (slots keys time prefix s') × Reads rec.key found v)
      → Ran script w.server reply k'
      → let (said, w2) = reserved_reply r prefix rec.key reply w' in
        IsStored w2
        × Call (reserve_now n rec) (λ found. Found found said) said.1 (contents w0) (contents w2)
  unfolding reserved_reply is
  reserve_call rec n script w0 w w' reply at kept faded (kept', left, read) came =
      let (kept2, later, answered) =
        reserved_reply_lem rec.key _ (script w.server).0 w' read (rw at kept') in
      (
        kept2,
        inl (record {
          at = contents w;
          faded = faded;
          answered = answered;
          left = Fades-trans _ (contents w') _ (rw at left) later;
        }),
      )
  reserve_call rec n script w0 w w' reply at kept faded (kept', left, read) (was_lost e) = (
    rw at kept',
    inr (
      (_, refl, refl, refl, refl),
      inr (record { at = contents w; faded = faded; answered = tt; left = rw at left }),
    ),
  )
  reserve_call rec n script w0 w w' reply at kept faded (kept', left, read) (did_not e) =
      (rw at kept, inr ((_, refl, refl, refl, refl), inl (rw at faded)))

  reserve_lem :
      (rec : Record) (w : Node K)
      → IsReservation rec
      → IsStored w
      → let (reply, w') = reserve r prefix rec w in
        IsStored w' × Reserved 1 rec reply w.clock (contents w) w'.clock (contents w')
  unfolding reserve
  reserve_lem rec w new kept =
      let (t, w1) = now r prefix w in
      let (kept1, faded) = now_lem law prefix w kept in
      let lease = rec.lease_expires_at in
      let (low, high) = at_least_one_ms_bounds (sub lease t) (sub-IsInt64 lease t) in
      let script =
        reserve_script r (redis_key prefix rec.key) state_reserved rec.token rec.fingerprint
          (format_int (unix_milli lease)) (format_int (pos (px_until lease t))) in
      let (kept', call) =
        reserve_call rec (px_until lease t) script w w1 _ _ refl kept1 faded
          (reserve_step law prefix rec lease (px_until lease t) w1.server low high new kept1)
          (send-Ran script w1) in
      let reply = send script w1 in
      let begun = Node.now_clock r.pass w in
      let later = Node.now_later r.pass w in
      let sent = Node.send_clock script w1 in
      let last = reserved_reply_clock rec.key reply.0 reply.1 in
      (kept', (t, omega arith, omega arith, rw (times_one (px_until lease t)) call))

  pub store-IsShared : IsShared 1 (λ w. w.clock) IsStored contents (store r prefix)
  store-IsShared = record {
    reserve_law = reserve_lem;
    complete_law = complete_lem;
    release_law = release_lem;
  }
