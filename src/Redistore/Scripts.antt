-- ===== src/Redistore/Scripts.antt =====
-- The Lua scripts of redistore/redistore.go.
use idemlease.Base.{Bytes, bytes_eq, if◌then◌else◌, not, Bool, Option, none, some, [], ◌∷◌}
use idemlease.Base.Dict.{Dict}
use idemlease.Base.Text.{codes}
use idemlease.Redistore.Server.{Redis, Value, Values, text, number, nothing, array, end, item}

abbrev pub state_reserved : Bytes
state_reserved = codes "1"

abbrev pub state_completed : Bytes
state_completed = codes "2"

-- The reply of `HGETALL`: names and values in turn.
unfoldable pub flat : Dict Bytes → Values
flat [] = end
flat ((name, v) ∷ fields) = item (text name) (item (text v) (flat fields))

-- `x ~= '1'` of what `HGET` gives.
abbrev pub is_reserved_field : Option Bytes → Bool
is_reserved_field none = Bool.false
is_reserved_field (some v) = bytes_eq v state_reserved

module _ {K : Type 0} (r : Redis K) where
  -- `{redis.call('PTTL', KEYS[1]), redis.call('HGETALL', KEYS[1])}`
  unfoldable pub read_live : Bytes → K → Value
  read_live k s = array (item (number (r.pttl k s)) (item (array (flat (r.hgetall k s))) end))

  -- `reserveScript`
  unfoldable pub reserve_script : Bytes → Bytes → Bytes → Bytes → Bytes → Bytes → K → Value × K
  unfolding read_live
  reserve_script k state token fp deadline ttl s = if r.exists k s then (read_live k s, s) else (
    text (codes "OK"),
    r.pexpire k ttl (
        r.hset k
          ((codes "state", state)
            ∷ (codes "token", token)
            ∷ (codes "fp", fp)
            ∷ (codes "lease_exp_ms", deadline)
            ∷ [])
          s),
  )

  -- `getScript`
  unfoldable pub get_script : Bytes → K → Value
  unfolding read_live
  get_script k s = if r.exists k s then read_live k s else nothing

  -- The token compare-and-set that both transitions start with; `done` is what follows it.
  unfoldable pub guarded : Option Bytes → Bytes → Bytes → Value × K → K → Value × K
  guarded none token k done s = (text (codes "NOT_FOUND"), s)
  guarded (some t) token k done s =
      if not (bytes_eq t token)
      then (text (codes "TOKEN_MISMATCH"), s)
      else if not (is_reserved_field (r.hget k (codes "state") s))
      then (text (codes "NOT_FOUND"), s)
      else done

  -- `completeScript`
  unfoldable pub complete_script : Bytes → Bytes → Bytes → Bytes → Bytes → K → Value × K
  unfolding guarded
  complete_script k token payload deadline ttl s =
      guarded (r.hget k (codes "token") s) token k
        (
          text (codes "OK"),
          r.pexpire k ttl (
              r.hset k
                ((codes "state", state_completed)
                  ∷ (codes "payload", payload)
                  ∷ (codes "rec_exp_ms", deadline)
                  ∷ [])
                s),
        )
        s

  -- `releaseScript`
  unfoldable pub release_script : Bytes → Bytes → K → Value × K
  unfolding guarded
  release_script k token s =
      guarded (r.hget k (codes "token") s) token k (text (codes "OK"), r.del k s) s
