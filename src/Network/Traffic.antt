-- ===== src/Network/Traffic.antt =====
-- macos/Network.h and macos/Network.cpp: struct Interface.
use cctop.Prelude.{ℕ, String, List, [], ◌≡◌, refl}
use cctop.Prelude.Words.{sub64}
use cctop.Sampler.{Stat}

-- `flags` is the bit pattern of the `int`. `new Interface` leaves all fields but the name undefined,
-- and `read` and `copy` set them at once.
pub record Interface : Type 0 where
  pub name : String
  pub flags : ℕ
  pub ifi_type : ℕ
  pub mac : List ℕ
  pub speed : ℕ
  pub packets_in : ℕ
  pub packets_out : ℕ
  pub bytes_in : ℕ
  pub bytes_out : ℕ

unfoldable pub fresh_interface : String → Interface
fresh_interface name = record {
  name = name;
  flags = 0;
  ifi_type = 0;
  mac = [];
  speed = 0;
  packets_in = 0;
  packets_out = 0;
  bytes_in = 0;
  bytes_out = 0;
}

-- `Interface::diff`
unfoldable pub diff : Interface → Interface → Interface → Interface
diff this newer older = record this {
  packets_in = sub64 newer.packets_in older.packets_in;
  packets_out = sub64 newer.packets_out older.packets_out;
  bytes_in = sub64 newer.bytes_in older.bytes_in;
  bytes_out = sub64 newer.bytes_out older.bytes_out;
}

-- The body of `Network::copy`.
unfoldable pub assign : Interface → Interface → Interface
assign d o = record d {
  ifi_type = o.ifi_type;
  flags = o.flags;
  mac = o.mac;
  speed = o.speed;
  packets_in = o.packets_in;
  packets_out = o.packets_out;
  bytes_in = o.bytes_in;
  bytes_out = o.bytes_out;
}

pub name-fresh_interface : (k : String) → (fresh_interface k).name ≡ k
unfolding fresh_interface
name-fresh_interface k = refl

pub name-assign : (d s : Interface) → (assign d s).name ≡ d.name
unfolding assign
name-assign d s = refl

pub name-diff : (d n o : Interface) → (diff d n o).name ≡ d.name
unfolding diff
name-diff d n o = refl

pub diff-assign : (d n l o : Interface) → diff d n (assign l o) ≡ diff d n o
unfolding diff assign
diff-assign d n l o = refl

instance abbrev pub interface_stat : Stat Interface
interface_stat = record {
  name = λ c. c.name;
  fresh = fresh_interface;
  assign = assign;
  diff = diff;
  name-fresh = name-fresh_interface;
  name-assign = name-assign;
  name-diff = name-diff;
  diff-assign = diff-assign;
}
