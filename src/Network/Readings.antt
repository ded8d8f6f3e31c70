-- ===== src/Network/Readings.antt =====
-- macos/Network.cpp: readings and updates.
use cctop.Prelude.{String, some, List, [], ◌∷◌, ◌≡◌, refl}
use cctop.Map.{Map, string_key, Distinct}
use cctop.Sampler.{Named}
use cctop.Sampler.Interval
use cctop.Sampler.Interval.{IsReading, Advances, advance_lem, fresh-IsValid}
use cctop.Sampler.Modify.{modify-IsReading, IsReading-trans, IsReading-refl}
use cctop.Console.{Console}
use cctop.Console.Session.{running}
use cctop.Network.{
  Network, Message, ifinfo2, other_message, messages, set_data, read_message, read_all, read,
  update, start,
}
use cctop.Network.Traffic.{Interface, interface_stat}

read_message-IsReading :
    (x : Message) (m : Map String Interface) → Named m → Distinct m → IsReading m (read_message x m)
unfolding read_message set_data
read_message-IsReading (ifinfo2 msg) m n d =
    modify-IsReading msg.sdl_name (set_data msg) m (λ v. refl) n d
read_message-IsReading other_message m n d = IsReading-refl m n d

-- `read` keeps every name and leaves each object under its own.
pub read_all-IsReading :
    (xs : List Message) (m : Map String Interface)
    → Named m
    → Distinct m
    → IsReading m (read_all xs m)
unfolding read_all
read_all-IsReading [] m n d = IsReading-refl m n d
read_all-IsReading (x ∷ xs) m n d =
    let one = read_message-IsReading x m n d in
    IsReading-trans m (read_message x m) _ one
      (read_all-IsReading xs (read_message x m) one.named one.distinct)

-- From a valid state, `update` with an answer of the system meets no null pointer, leaves a valid
-- state with the same interfaces in `delta`, and each of them has there the differences of its
-- counters in the new reading and the one before.
pub update_network :
    (xs : List Message) (net : Network) (con : Console)
    → Interval.IsValid net
    → (net' : Network) × (update (messages xs) net con ≡ running (some net'))
      × Advances net (read_all xs net.current) net'
unfolding update read
update_network xs net con h =
    let (q, done, adv) =
      advance_lem net (read_all xs net.current) h
        (read_all-IsReading xs net.current h.current_named h.current_distinct) in
    (q, rw done refl, adv)

-- The constructor leaves a valid state if the system answers twice.
pub start_network :
    (xs ys : List Message) (con : Console)
    → (net : Network) × (start (messages xs) (messages ys) con ≡ running (some net))
      × Interval.IsValid net
unfolding start read
start_network xs ys con =
    let r = read_all-IsReading xs [] tt tt in
    let (q, done, adv) =
      update_network ys _ con (fresh-IsValid (read_all xs []) r.named r.distinct) in
    (q, done, adv.valid)
