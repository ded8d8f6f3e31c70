-- ===== src/Network.antt =====
-- macos/Network.h and macos/Network.cpp: class Network, the traffic of the interfaces. The answer of
-- `sysctl` to NET_RT_IFLIST2 is an argument, a list of messages: how they lie in the buffer is not
-- modelled.
pub mod Traffic
pub mod Readings
pub mod Shown
pub mod Moved
pub mod Plain
pub mod Rows
use package.text.Mathlib.Text.{starts_with}
use cctop.Prelude.{
  ℕ, zero, ◌+◌, ◌%◌, String, Bool, true, false, not, ◌&&◌, ◌||◌, Option, none, some, List, [], ◌∷◌,
  ◌==◌, ltb, ◌▷◌, if◌then◌else◌,
}
use cctop.Terminal.{Env, Arg, str, num, err}
use cctop.Map.{Map, string_key, lookup}
use cctop.Sampler.{Sampler, copy, modify}
use cctop.Sampler.Interval.{advance}
use cctop.Options.{Options}
use cctop.Console.{Console, call, text, println}
use cctop.Console.Session.{Outcome, running, exited, leave}
use cctop.Console.Output.{inverseln, end_section}
use cctop.Network.Traffic.{Interface, interface_stat}

-- What the program reads of an `if_msghdr2` and the address after it.
pub record Data : Type 0 where
  pub sdl_name : String
  pub sdl_mac : List ℕ
  pub ifm_flags : ℕ
  pub ifi_type : ℕ
  pub ifi_baudrate : ℕ
  pub ifi_ipackets : ℕ
  pub ifi_opackets : ℕ
  pub ifi_ibytes : ℕ
  pub ifi_obytes : ℕ

-- A message of type RTM_IFINFO2, or of another type.
pub data Message : Type 0 where
  ifinfo2 : Data → Message
  other_message : Message

-- Either call of `sysctl` may fail, with a text for `errno`.
pub data Answer : Type 0 where
  failed : String → Answer
  messages : List Message → Answer

-- The statements of `read` for an interface.
unfoldable pub set_data : Data → Interface → Interface
set_data msg iface = record iface {
  mac = msg.sdl_mac;
  ifi_type = msg.ifi_type;
  flags = msg.ifm_flags;
  speed = msg.ifi_baudrate;
  packets_in = msg.ifi_ipackets;
  packets_out = msg.ifi_opackets;
  bytes_in = msg.ifi_ibytes;
  bytes_out = msg.ifi_obytes;
}

unfoldable pub read_message : Message → Map String Interface → Map String Interface
read_message (ifinfo2 msg) m = modify msg.sdl_name (set_data msg) m
read_message other_message m = m

-- The loop of `read` over the buffer.
unfoldable pub read_all : List Message → Map String Interface → Map String Interface
read_all [] m = m
read_all (x ∷ xs) m = read_all xs (read_message x m)

-- `read(m)`
unfoldable pub read : Answer → Map String Interface → Console → Outcome (Map String Interface)
read (failed error) m con = leave 1 (con ▷ call (err (text "sysctl: %s\n" (str error ∷ []))))
read (messages xs) m con = running (read_all xs m)

abbrev pub Network : Type 0
Network = Sampler Interface

-- The result under `running` is `none` where a null pointer is used.
unfoldable pub update : Answer → Network → Console → Outcome (Option Network)
update answer net con = elim (read answer net.current con) [
  | running current ↦ running (advance net current)
  | exited s c ↦ exited s c
]

-- The constructor: a first reading, and an update with a second one.
unfoldable pub start : (first second : Answer) → Console → Outcome (Option Network)
start first second con = elim (read first [] con) [
  | running current ↦
      update second (record { last = copy [] current; current = current; delta = copy [] current })
        con
  | exited s c ↦ exited s c
]

-- The interfaces that `print` leaves out by name.
unfoldable pub is_hidden : String → Bool
is_hidden name = starts_with name "utun" || starts_with name "awdl" || starts_with name "lo"

-- `i->flags & IFF_UP && current[i->name]->packetsIn`
unfoldable pub is_active : Interface → Interface → Bool
is_active i c = i.flags % 2 == 1 && not (c.packets_in == 0)

-- The line of an interface, in the narrow or the wide form.
unfoldable pub print_interface : Interface → Interface → Console → Console
print_interface i c con =
    if ltb con.width 98
    then println "  %-10s %'13lld %'13lld" (str i.name ∷ num i.bytes_in ∷ num i.bytes_out ∷ []) con
    else println "  %-10s %'13lld %'13lld %'13lld %'13lld %'13lld %'13lld"
        (str i.name
          ∷ num i.bytes_in
          ∷ num i.bytes_out
          ∷ num i.packets_in
          ∷ num i.packets_out
          ∷ num c.packets_in
          ∷ num c.packets_out
          ∷ [])
        con

unfoldable pub print_found : Interface → Interface → Console × ℕ → Console × ℕ
print_found i c (con, count) =
    if is_active i c then (print_interface i c con, count + 1) else (con, count)

-- A round of the loop of `print`. `none` is a name that `current` does not have: there `current[name]`
-- enters a null pointer, and uses it if the interface is up.
unfoldable pub print_one : Map String Interface → Interface → Console × ℕ → Option (Console × ℕ)
print_one current i out =
    if is_hidden i.name
    then some out
    else (elim (lookup i.name current) [ none ↦ none | some c ↦ some (print_found i c out) ])

-- The loop over `delta`.
unfoldable pub print_all :
    (current delta : Map String Interface) → Console × ℕ → Option (Console × ℕ)
print_all current [] out = some out
print_all current ((_, i) ∷ delta) out = elim (print_one current i out) [
  | none ↦ none
  | some out' ↦ print_all current delta out'
]

module _ ⦃env : Env⦄ where
  unfoldable pub header : Console → Console
  header con =
      if ltb con.width 98
      then inverseln "  %-10s %13s %13s"
          (str "[N]ETWORK" ∷ str "Read (B/s)" ∷ str "Write (B/s)" ∷ str "RX Packets" ∷ []) con
      else inverseln "  %-10s %13s %13s %13s %13s %13s %13s"
          (str "[N]ETWORK"
            ∷ str "Read (B/s)"
            ∷ str "Write (B/s)"
            ∷ str "RX Packets"
            ∷ str "TX Packets"
            ∷ str "Total RX"
            ∷ str "Total TX"
            ∷ [])
          con

  unfoldable pub print_network : Bool → Options → Network → Console → Option (Console × ℕ)
  print_network blank o net con =
      elim (if o.condense_network
        then some (header con, 1)
        else print_all net.current net.delta (header con, 1)) [
          | none ↦ none
          | some out ↦ some (end_section blank out)
        ]
