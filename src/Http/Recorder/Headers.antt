-- ===== src/Http/Recorder/Headers.antt =====
-- Which headers a recorder keeps: those of its allowlist, and never one that is always excluded.
use idemlease.Base.{
  ℕ, ◌+◌, ◌≡◌, ◌≢◌, ◌∙◌, refl, ap, Bytes, bytes_eq, bytes_eq_iff, length, Bool-cases, if◌then◌else◌,
}
use idemlease.Base.{
  List, [], ◌∷◌, true, false, ◌||◌, ◌&&◌, not, leb, ltb, ◌==◌, inl, inr, map, arith, Option, none,
  some,
}
use idemlease.Base.Int.{ℤ, exceeds}
use idemlease.Base.Text.{codes, canonical}
use idemlease.Http.Header.{Header, values, names, elem, Distinct, values_of_nil, values_of_cons}
use idemlease.Http.Recorder.{
  Recorder, is_excluded, add_name, allowlist, new_recorder, snapshot, record_status, record_body,
  abandon,
}

-- The name is on the list that the middleware was given, in canonical form, and is neither Set-Cookie
-- nor Authorization nor the name of a hop-by-hop header.
pub record IsReplayable (listed : List Bytes) (n : Bytes) : Type 0 where
  pub is_listed : elem n (map canonical listed) ≡ true
  pub no_cookie : n ≢ codes "Set-Cookie"
  pub no_authorization : n ≢ codes "Authorization"
  pub no_connection : n ≢ codes "Connection"
  pub no_encoding : n ≢ codes "Transfer-Encoding"
  pub no_keep_alive : n ≢ codes "Keep-Alive"
  pub no_upgrade : n ≢ codes "Upgrade"
  pub no_trailer : n ≢ codes "Trailer"
  pub no_te : n ≢ codes "Te"
  pub no_proxy_authenticate : n ≢ codes "Proxy-Authenticate"
  pub no_proxy_authorization : n ≢ codes "Proxy-Authorization"

-- What the exclusion list excludes is not any of the names on it.
excludes : (n c : Bytes) → is_excluded n ≡ false → is_excluded c ≡ true → n ≢ c
excludes n c out there same = absurd (cc)

kept-IsReplayable :
    (listed : List Bytes) (n : Bytes)
    → elem n (map canonical listed) ≡ true
    → is_excluded n ≡ false
    → IsReplayable listed n
unfolding is_excluded elem bytes_eq
kept-IsReplayable listed n there out = record {
  is_listed = there;
  no_cookie = excludes n (codes "Set-Cookie") out refl;
  no_authorization = excludes n (codes "Authorization") out refl;
  no_connection = excludes n (codes "Connection") out refl;
  no_encoding = excludes n (codes "Transfer-Encoding") out refl;
  no_keep_alive = excludes n (codes "Keep-Alive") out refl;
  no_upgrade = excludes n (codes "Upgrade") out refl;
  no_trailer = excludes n (codes "Trailer") out refl;
  no_te = excludes n (codes "Te") out refl;
  no_proxy_authenticate = excludes n (codes "Proxy-Authenticate") out refl;
  no_proxy_authorization = excludes n (codes "Proxy-Authorization") out refl;
}

elem-add_name :
    (k c : Bytes) (allow : List Bytes) → elem k (add_name c allow) ≡ (bytes_eq c k || elem k allow)
unfolding elem add_name
elem-add_name k c allow = ground (arith, bytes_eq_iff c k)

add_name-Distinct : (c : Bytes) (allow : List Bytes) → Distinct allow → Distinct (add_name c allow)
unfolding add_name
add_name-Distinct c allow d = ground arith

-- What the loop of `NewRecorder` puts on the allowlist.
elem-allowlist :
    (k : Bytes) (listed allow : List Bytes)
    → elem k (allowlist listed allow)
      ≡ (elem k allow || (not (is_excluded k) && elem k (map canonical listed)))
unfolding allowlist elem
elem-allowlist k [] allow = ground arith
elem-allowlist k (name ∷ rest) allow =
    let c = canonical name in
    let next = elem-allowlist k rest (if is_excluded c then allow else add_name c allow) in
    next ∙ (elim (Bool-cases (bytes_eq c k)) [
      | inl same ↦
          ground (arith, same, elem-add_name k c allow, ap is_excluded ((bytes_eq_iff c k).0 same))
      | inr other ↦ ground (arith, other, elem-add_name k c allow)
    ])

pub allowlist-Distinct :
    (listed allow : List Bytes) → Distinct allow → Distinct (allowlist listed allow)
unfolding allowlist
allowlist-Distinct [] allow d = d
allowlist-Distinct (name ∷ rest) allow d =
    allowlist-Distinct rest _ (ground (arith, add_name-Distinct (canonical name) allow d))

elem-snapshot :
    (k : Bytes) (allow : List Bytes) (h : Header)
    → elem k (names (snapshot allow h)) ≡ true
    → elem k allow ≡ true
unfolding elem names snapshot
elem-snapshot k [] h e = e
elem-snapshot k (name ∷ allow) h e = ground (arith, elem-snapshot k allow h)

absent : {A : Type 0} (vs : List A) → (length vs == 0) ≡ true → vs ≡ []
absent [] e = refl
absent (v ∷ vs) e = ground arith

-- The snapshot has the values of the allowlisted names, and of no other.
pub values-snapshot :
    (k : Bytes) (allow : List Bytes) (h : Header)
    → values k (snapshot allow h) ≡ (if elem k allow then values k h else [])
unfolding elem snapshot
values-snapshot k [] h = values_of_nil k
values-snapshot k (name ∷ allow) h = elim (Bool-cases (length (values name h) == 0)) [
  | inl none_there ↦ ground (
    arith,
    none_there,
    values-snapshot k allow h,
    absent (values name h) none_there,
    bytes_eq_iff name k,
  )
  | inr some_there ↦ ground (
    arith,
    some_there,
    values-snapshot k allow h,
    values_of_cons name (values name h) (snapshot allow h) k,
    bytes_eq_iff name k,
  )
]

pub snapshot-Distinct :
    (allow : List Bytes) (h : Header) → Distinct allow → Distinct (names (snapshot allow h))
unfolding names snapshot elem
snapshot-Distinct [] h d = tt
snapshot-Distinct (name ∷ allow) h d =
    ground (arith, snapshot-Distinct allow h d.1, elem-snapshot name allow h)

-- The names that a recorder has kept can be replayed.
abbrev pub AreKept : List Bytes → Option Header → Type 0
AreKept listed none = Unit
AreKept listed (some h) =
    ((k : Bytes) → elem k (names h) ≡ true → IsReplayable listed k) × Distinct (names h)

pub record IsClean (listed : List Bytes) (rec : Recorder) : Type 0 where
  pub allowed : rec.allow ≡ allowlist listed []
  pub kept : AreKept listed rec.header

pub new_recorder-IsClean :
    (max : ℤ) (listed : List Bytes) → IsClean listed (new_recorder max listed)
unfolding new_recorder
new_recorder-IsClean max listed = record { allowed = refl; kept = tt }

pub record_status-IsClean :
    (listed : List Bytes) (status : ℕ) (h : Header) (rec : Recorder)
    → IsClean listed rec
    → IsClean listed (record_status status h rec)
unfolding record_status
record_status-IsClean listed status h rec c =
    elim (Bool-cases (not (rec.status == 0) || (leb 100 status && ltb status 200))) [
      | inl skip ↦ rw skip c
      | inr take_it ↦ rw take_it record {
        allowed = c.allowed;
        kept = rw c.allowed (
          (λ k e. replayable k (elem-snapshot k (allowlist listed []) h e)),
          snapshot-Distinct (allowlist listed []) h (allowlist-Distinct listed [] tt),
        );
      }
    ]
  where
    replayable : (k : Bytes) → elem k (allowlist listed []) ≡ true → IsReplayable listed k
    replayable k e =
        let (there, out) : (elem k (map canonical listed) ≡ true) × (is_excluded k ≡ false) =
          unfold elem in ground (arith, elem-allowlist k listed []) in
        kept-IsReplayable listed k there out

pub record_body-IsClean :
    (listed : List Bytes) (p : Bytes) (rec : Recorder)
    → IsClean listed rec
    → IsClean listed (record_body p rec)
unfolding record_body
record_body-IsClean listed p rec c = elim (Bool-cases (rec.overflowed || rec.abandoned)) [
  | inl void ↦ rw void c
  | inr open_capture ↦ elim (Bool-cases (exceeds (length rec.body + length p) rec.max_body)) [
    | inl over ↦ rw (open_capture, over) record { allowed = c.allowed; kept = c.kept }
    | inr within ↦ rw (open_capture, within) record { allowed = c.allowed; kept = c.kept }
  ]
]

pub abandon-IsClean :
    (listed : List Bytes) (rec : Recorder) → IsClean listed rec → IsClean listed (abandon rec)
unfolding abandon
abandon-IsClean listed rec c = record { allowed = c.allowed; kept = c.kept }
