-- ===== src/Network/Moved.antt =====
-- macos/Network.cpp: what an update shows of the messages of the system.
use cctop.Prelude.{
  String, Option, none, some, List, [], ◌∷◌, ◌≡◌, refl, ap, ◌∙◌, sym, Bool-cases, inl, inr,
  if◌then◌else◌,
}
use cctop.Prelude.Words.{sub64}
use cctop.Map.{Map, string_key, lookup}
use cctop.Sampler.{obtain}
use cctop.Sampler.Interval
use cctop.Sampler.Modify.{lookup-modify}
use cctop.Console.{Console}
use cctop.Console.Session.{running}
use cctop.Network.{
  Network, Data, Message, ifinfo2, other_message, messages, set_data, read_message, read_all,
  update,
}
use cctop.Network.Traffic.{Interface, interface_stat, diff}
use cctop.Network.Readings.{update_network}

-- What the last message about an interface says, `d` if there is none.
unfoldable pub last_data : String → List Message → Option Data → Option Data
last_data name [] d = d
last_data name (ifinfo2 x ∷ xs) d =
    last_data name xs (if string_key.eq x.sdl_name name then some x else d)
last_data name (other_message ∷ xs) d = last_data name xs d

-- An interface with the counters of a message.
record Carries (x : Data) (i : Interface) : Type 0 where
  packets_in : i.packets_in ≡ x.ifi_ipackets
  packets_out : i.packets_out ≡ x.ifi_opackets
  bytes_in : i.bytes_in ≡ x.ifi_ibytes
  bytes_out : i.bytes_out ≡ x.ifi_obytes

Kept : Option Data → Option Interface → Type 0
Kept d v = (x : Data) → d ≡ some x → (i : Interface) × (v ≡ some i) × Carries x i

some-injective : {A : Type 0} (a b : A) → some a ≡ some b → a ≡ b
some-injective a b e = cc

read_message-Kept :
    (name : String) (x : Data) (d : Option Data) (m : Map String Interface)
    → Kept d (lookup name m)
    → Kept
        (if string_key.eq x.sdl_name name then some x else d)
        (lookup name (read_message (ifinfo2 x) m))
unfolding Kept read_message set_data
read_message-Kept name x d m h y e = elim (Bool-cases (string_key.eq x.sdl_name name)) [
  | inl same ↦
      let is_x : x ≡ y = some-injective x y (rw same at e) in
      (
        set_data x (obtain x.sdl_name m),
        lookup-modify x.sdl_name name (set_data x) m ∙ rw same refl,
        record {
          packets_in = ap (λ d. d.ifi_ipackets) is_x;
          packets_out = ap (λ d. d.ifi_opackets) is_x;
          bytes_in = ap (λ d. d.ifi_ibytes) is_x;
          bytes_out = ap (λ d. d.ifi_obytes) is_x;
        },
      )
  | inr other ↦
      let (i, found, carries) = h y (rw other at e) in
      (i, lookup-modify x.sdl_name name (set_data x) m ∙ rw other found, carries)
]

read_all-Kept :
    (name : String) (xs : List Message) (d : Option Data) (m : Map String Interface)
    → Kept d (lookup name m)
    → Kept (last_data name xs d) (lookup name (read_all xs m))
unfolding last_data read_all read_message
read_all-Kept name [] d m h = h
read_all-Kept name (ifinfo2 x ∷ xs) d m h =
    read_all-Kept name xs _ (read_message (ifinfo2 x) m) (read_message-Kept name x d m h)
read_all-Kept name (other_message ∷ xs) d m h = read_all-Kept name xs d m h

read_all-Carries :
    (name : String) (xs : List Message) (m : Map String Interface) (x : Data) (i : Interface)
    → last_data name xs none ≡ some x
    → lookup name (read_all xs m) ≡ some i
    → Carries x i
unfolding Kept
read_all-Carries name xs m x i last found =
    let (j, here, carries) = read_all-Kept name xs none m (λ y e. absurd cc) x last in
    let same : j ≡ i = some-injective j i (sym here ∙ found) in
    record {
      packets_in = ap (λ k. k.packets_in) (sym same) ∙ carries.packets_in;
      packets_out = ap (λ k. k.packets_out) (sym same) ∙ carries.packets_out;
      bytes_in = ap (λ k. k.bytes_in) (sym same) ∙ carries.bytes_in;
      bytes_out = ap (λ k. k.bytes_out) (sym same) ∙ carries.bytes_out;
    }

-- If the state is valid and its latest reading was that of the messages `before`, an update with the
-- messages `after` meets no null pointer and leaves a valid state; for an interface `v` of `delta` of
-- which both have a message, each of the four counters in `delta` is then how far the counter of that
-- name has moved from the last such message of `before` to the last one of `after`, modulo 2^64, and
-- the flags are the ones of before.
pub counters_move :
    (before after : List Message) (m : Map String Interface) (net : Network) (con : Console)
    (name : String) (v : Interface) (x y : Data)
    → Interval.IsValid net
    → net.current ≡ read_all before m
    → lookup name net.delta ≡ some v
    → last_data name before none ≡ some x
    → last_data name after none ≡ some y
    → (net' : Network) × (i : Interface) × (update (messages after) net con ≡ running (some net'))
      × Interval.IsValid net'
      × (lookup name net'.delta ≡ some i)
      × (i.packets_in ≡ sub64 y.ifi_ipackets x.ifi_ipackets)
      × (i.packets_out ≡ sub64 y.ifi_opackets x.ifi_opackets)
      × (i.bytes_in ≡ sub64 y.ifi_ibytes x.ifi_ibytes)
      × (i.bytes_out ≡ sub64 y.ifi_obytes x.ifi_obytes)
      × (i.flags ≡ v.flags)
unfolding diff
counters_move before after m net con name v x y valid latest shown first second =
    let (net', done, adv) = update_network after net con valid in
    let (n, o, en, eo, moved) = adv.shows name v shown in
    let new = read_all-Carries name after net.current y n second en in
    let old = read_all-Carries name before m x o first (sym (ap (lookup name) latest) ∙ eo) in
    (
      net',
      diff v n o,
      done,
      adv.valid,
      moved,
      rw (old.packets_in, new.packets_in) refl,
      rw (old.packets_out, new.packets_out) refl,
      rw (old.bytes_in, new.bytes_in) refl,
      rw (old.bytes_out, new.bytes_out) refl,
      refl,
    )
