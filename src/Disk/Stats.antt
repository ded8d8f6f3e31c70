-- ===== src/Disk/Stats.antt =====
-- macos/Disk.h and macos/Disk.cpp: struct DiskStats.
use cctop.Prelude.{ℕ, String, Option, none, ◌≡◌, refl}
use cctop.Prelude.Words.{sub64}
use cctop.Sampler.{Stat}

-- `driver` is `none` until it is assigned; `new DiskStats` leaves it, and the counters, undefined, and
-- `read` and `copy` set the counters at once.
pub record DiskStats : Type 0 where
  pub driver : Option ℕ
  pub name : String
  pub blocksize : ℕ
  pub total_bytes : ℕ
  pub total_read_bytes : ℕ
  pub total_written_bytes : ℕ
  pub total_transfers : ℕ
  pub total_time : ℕ

unfoldable pub fresh_stats : String → DiskStats
fresh_stats name = record {
  driver = none;
  name = name;
  blocksize = 0;
  total_bytes = 0;
  total_read_bytes = 0;
  total_written_bytes = 0;
  total_transfers = 0;
  total_time = 0;
}

-- `DiskStats::diff`
unfoldable pub diff : DiskStats → DiskStats → DiskStats → DiskStats
diff this newer older = record this {
  total_bytes = sub64 newer.total_bytes older.total_bytes;
  total_read_bytes = sub64 newer.total_read_bytes older.total_read_bytes;
  total_written_bytes = sub64 newer.total_written_bytes older.total_written_bytes;
  total_transfers = sub64 newer.total_transfers older.total_transfers;
  total_time = sub64 newer.total_time older.total_time;
}

-- The body of `Disk::copy`.
unfoldable pub assign : DiskStats → DiskStats → DiskStats
assign stats o = record stats {
  driver = o.driver;
  blocksize = o.blocksize;
  total_bytes = o.total_bytes;
  total_read_bytes = o.total_read_bytes;
  total_written_bytes = o.total_written_bytes;
  total_transfers = o.total_transfers;
  total_time = o.total_time;
}

pub name-fresh_stats : (k : String) → (fresh_stats k).name ≡ k
unfolding fresh_stats
name-fresh_stats k = refl

pub name-assign : (d s : DiskStats) → (assign d s).name ≡ d.name
unfolding assign
name-assign d s = refl

pub name-diff : (d n o : DiskStats) → (diff d n o).name ≡ d.name
unfolding diff
name-diff d n o = refl

pub diff-assign : (d n l o : DiskStats) → diff d n (assign l o) ≡ diff d n o
unfolding diff assign
diff-assign d n l o = refl

instance abbrev pub disk_stat : Stat DiskStats
disk_stat = record {
  name = λ c. c.name;
  fresh = fresh_stats;
  assign = assign;
  diff = diff;
  name-fresh = name-fresh_stats;
  name-assign = name-assign;
  name-diff = name-diff;
  diff-assign = diff-assign;
}
