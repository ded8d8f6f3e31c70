-- ===== src/Tests/Drives.antt =====
-- The drives and the interfaces.
use cctop.Sort.{sort}
use cctop.Disk.Table.{IsTable, Tabled-IsTable, Tabled, terminated, made}
use cctop.Disk.Startup.{Started, fails, start-Started}
use cctop.Prelude.{
  ℕ, ◌&&◌, if◌then◌else◌, ◌+◌, ◌-◌, ◌≡◌, refl, String, true, none, some, List, [], ◌∷◌, length,
}
use cctop.Prelude.Words.{sub64, add64}
use cctop.Options.{defaults}
use cctop.Map.{Map, string_key, insert, lookup, add}
use cctop.Sampler.{copy, modify, obtain, enter}
use cctop.Sampler.Interval
use cctop.Sampler.Interval.{fresh-IsValid}
use cctop.Console.Session.{running}
use cctop.Disk.{
  Disk, Drive, Media, Properties, Registry, record_drivelist, remove_drive, read, update,
  print_disk, record_all_devices, record_drives, remove_drivelist, record_device, new_entry,
  remove_terminated, sort_drives, read_drive, set_stats, plus, Statistics,
}
use cctop.Disk.Stats.{DiskStats, disk_stat, fresh_stats}
use cctop.Disk.Devices.{count_name, remove_drive_counts}
use cctop.Disk.Moved.{totals_move}
use cctop.Disk.Readings.{read_drives-IsReading}
use cctop.Network.{
  header, Network, Message, Data, ifinfo2, other_message, messages, read_all, read_message,
  set_data, print_network,
}
use cctop.Network
use cctop.Network.Shown.{shown_in, each, print_network_eq}
use cctop.Console.Output.{end_section}
use cctop.Disk
use cctop.Sort
use cctop.Network.Traffic.{Interface, interface_stat, fresh_interface, assign}
use cctop.Network.Readings.{start_network, read_all-IsReading}
use cctop.Network.Moved.{last_data, counters_move}
use cctop.Tests.Samples.{sample_env, sample_console}

abbrev sample_properties : Properties
sample_properties = record { converted = true; name = some "disk0"; blocksize = some 4096 }

abbrev pub sample_media : Media
sample_media = record {
  parent = some (record { driver = 7; is_block_storage = true });
  properties = some sample_properties;
}

abbrev sample_drives : List Drive
sample_drives =
    record { driver = 7; name = "disk0"; blocksize = 4096 }
    ∷ record { driver = 8; name = "disk1"; blocksize = 512 }
    ∷ []

abbrev sample_statistics : Statistics
sample_statistics = record {
  bytes_read = some 1000;
  bytes_written = some 500;
  reads = some 10;
  writes = none;
  read_time = some 3;
  write_time = some 4;
}

abbrev pub sample_registry : Registry
sample_registry driver = some (some sample_statistics)

start-Started_example :
    Started
      (fails (some (sample_media ∷ [])) (some []))
      sample_console
      (Disk.start (some (sample_media ∷ [])) (some []) sample_registry sample_console)
start-Started_example =
    start-Started (some (sample_media ∷ [])) (some []) sample_registry sample_console refl

abbrev other_media : Media
other_media = record sample_media {
  properties = some (record sample_properties { name = some "disk1" });
}

abbrev found_drives : List Drive
found_drives =
    record { driver = 7; name = "disk0"; blocksize = 4096 }
    ∷ record { driver = 7; name = "disk1"; blocksize = 4096 }
    ∷ []

-- Two drives have been found, the second in the order first, of which one terminates.
sample_table : Tabled (remove_drivelist (sample_media ∷ []) found_drives)
unfolding record_all_devices record_drivelist record_drives record_device new_entry
    remove_terminated remove_drivelist sort_drives Sort.sort Sort.insert
sample_table =
    terminated (sample_media ∷ [])
      (made (some (other_media ∷ sample_media ∷ [])) (some []) sample_console refl)

Tabled-IsTable_example : IsTable (remove_drivelist (sample_media ∷ []) found_drives)
Tabled-IsTable_example =
    Tabled-IsTable (remove_drivelist (sample_media ∷ []) found_drives) sample_table

remove_drive_counts_example :
    count_name "disk0" (remove_drive sample_media sample_drives)
    ≡ count_name "disk0" sample_drives - (if true && string_key.eq "disk0" "disk0" then 1 else 0)
remove_drive_counts_example =
    remove_drive_counts sample_media sample_properties "disk0" "disk0" sample_drives refl refl

abbrev sample_reading : Map String DiskStats
sample_reading = read sample_registry sample_drives []

abbrev pub sample_disk : Disk
sample_disk = record {
  devices = sample_drives;
  sampler = record {
    last = copy [] sample_reading;
    current = sample_reading;
    delta = copy [] sample_reading;
  };
}

pub sample_disk-IsValid : Interval.IsValid sample_disk.sampler
sample_disk-IsValid =
    let r = read_drives-IsReading sample_registry sample_drives [] tt tt in
    fresh-IsValid sample_reading r.named r.distinct

abbrev sample_data : Data
sample_data = record {
  sdl_name = "en0";
  sdl_mac = 1 ∷ 2 ∷ 3 ∷ 4 ∷ 5 ∷ 6 ∷ [];
  ifm_flags = 1;
  ifi_type = 6;
  ifi_baudrate = 1000;
  ifi_ipackets = 12;
  ifi_opackets = 13;
  ifi_ibytes = 1400;
  ifi_obytes = 1500;
}

abbrev pub sample_messages : List Message
sample_messages = ifinfo2 sample_data ∷ []

pub sample_network : Network
sample_network = (start_network sample_messages sample_messages sample_console).0

pub sample_network-IsValid : Interval.IsValid sample_network
unfolding sample_network
sample_network-IsValid = (start_network sample_messages sample_messages sample_console).2

-- Later, with 200 bytes more read.
abbrev later_registry : Registry
later_registry driver = some (some (record sample_statistics { bytes_read = some 1200 }))

abbrev sample_totals : DiskStats
sample_totals = record {
  driver = none;
  name = "disk0";
  blocksize = 4096;
  total_bytes = 1500;
  total_read_bytes = 1000;
  total_written_bytes = 500;
  total_transfers = 10;
  total_time = 7;
}

totals_shown : lookup "disk0" sample_disk.sampler.delta ≡ some sample_totals
unfolding read read_drive set_stats modify obtain copy insert lookup add enter fresh_stats
    Disk.Stats.assign plus add64
totals_shown = refl

totals_move_example :
    (disk : Disk) × (n : ℕ) × (s : DiskStats) × (update later_registry sample_disk ≡ some (disk, n))
    × Interval.IsValid disk.sampler
    × (disk.devices ≡ sample_drives)
    × (lookup "disk0" disk.sampler.delta ≡ some s)
    × (s.total_bytes ≡ sub64 1700 1500)
    × (s.total_read_bytes ≡ sub64 1200 1000)
    × (s.total_written_bytes ≡ sub64 500 500)
    × (s.total_transfers ≡ sub64 10 10)
    × (s.total_time ≡ sub64 7 7)
totals_move_example =
    totals_move sample_registry later_registry []
      (record { driver = 8; name = "disk1"; blocksize = 512 } ∷ [])
      (record { driver = 7; name = "disk0"; blocksize = 4096 }) [] sample_disk sample_totals
      sample_statistics (record sample_statistics { bytes_read = some 1200 }) sample_disk-IsValid
      refl (refl, tt) refl totals_shown refl refl

-- The state after a reading of the messages.
abbrev sample_traffic : Network
sample_traffic = record {
  last = copy [] (read_all sample_messages []);
  current = read_all sample_messages [];
  delta = copy [] (read_all sample_messages []);
}

sample_traffic-IsValid : Interval.IsValid sample_traffic
sample_traffic-IsValid =
    let r = read_all-IsReading sample_messages [] tt tt in
    fresh-IsValid (read_all sample_messages []) r.named r.distinct

abbrev later_data : Data
later_data = record sample_data { ifi_ipackets = 20; ifi_ibytes = 1000 }

abbrev sample_interface : Interface
sample_interface = record {
  name = "en0";
  flags = 1;
  ifi_type = 6;
  mac = 1 ∷ 2 ∷ 3 ∷ 4 ∷ 5 ∷ 6 ∷ [];
  speed = 1000;
  packets_in = 12;
  packets_out = 13;
  bytes_in = 1400;
  bytes_out = 1500;
}

sample_shown : lookup "en0" sample_traffic.delta ≡ some sample_interface
unfolding copy read_all read_message set_data modify obtain fresh_interface assign insert lookup add
    enter
sample_shown = refl

said : last_data "en0" sample_messages none ≡ some sample_data
unfolding last_data
said = refl

said_later : last_data "en0" (ifinfo2 later_data ∷ other_message ∷ []) none ≡ some later_data
unfolding last_data
said_later = refl

counters_move_example :
    (net : Network) × (i : Interface) × (Network.update
        (messages (ifinfo2 later_data ∷ other_message ∷ []))
        sample_traffic
        sample_console
      ≡ running (some net))
    × Interval.IsValid net
    × (lookup "en0" net.delta ≡ some i)
    × (i.packets_in ≡ sub64 20 12)
    × (i.packets_out ≡ sub64 13 13)
    × (i.bytes_in ≡ sub64 1000 1400)
    × (i.bytes_out ≡ sub64 1500 1500)
    × (i.flags ≡ 1)
counters_move_example =
    counters_move sample_messages (ifinfo2 later_data ∷ other_message ∷ []) [] sample_traffic
      sample_console "en0" sample_interface sample_data later_data sample_traffic-IsValid refl
      sample_shown said said_later

print_network_eq_example :
    let rows = shown_in sample_network.current sample_network.delta in
    print_network true defaults sample_network sample_console
    ≡ some (end_section true (each rows (header sample_console), 1 + length rows))
print_network_eq_example =
    print_network_eq true defaults sample_network sample_console sample_network-IsValid
