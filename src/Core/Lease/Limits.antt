-- ===== src/Core/Lease/Limits.antt =====
-- idemlease.go: the time limits of one `Begin` and `Finish`, with their defaults.
use idemlease.Base.{◌*◌, if◌then◌else◌}
use idemlease.Base.Int.{pos, is_pos}
use idemlease.Core.Time.{Duration, second}

pub record Options : Type 0 where
  pub lease_ttl : Duration
  pub record_ttl : Duration

abbrev pub default_lease_ttl : Duration
default_lease_ttl = pos (30 * second)

abbrev pub default_record_ttl : Duration
default_record_ttl = pos (24 * 3600 * second)

-- `Options.leaseTTL`
unfoldable pub lease_ttl : Options → Duration
lease_ttl o = if is_pos o.lease_ttl then o.lease_ttl else default_lease_ttl

-- `Options.recordTTL`
unfoldable pub record_ttl : Options → Duration
record_ttl o = if is_pos o.record_ttl then o.record_ttl else default_record_ttl

-- `Options.Effective`
unfoldable pub effective : Options → Options
unfolding lease_ttl record_ttl
effective o = record { lease_ttl = lease_ttl o; record_ttl = record_ttl o }
