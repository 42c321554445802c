-- ===== src/Registar/Admin.antt =====
-- internal/registar/admin/admin.go: the hosts that the callbacks of the server announce, the
-- subscribers of the live events, and the bandwidth of the last day. A message is the event that
-- its text tells; a bucket has the bytes, which the page divides by the seconds of the interval.
pub mod Bandwidth
pub mod HostList
use native.Mathlib.Decide.{ℕ_discrete}
use star.Prelude.{
  ℕ, ◌+◌, ◌-◌, ◌*◌, ◌/◌, ◌%◌, ◌^◌, Bool, true, false, ◌||◌, not, Option, none, some, List, [], ◌∷◌,
  ◌++◌, length, get_or, set, replicate, tabulate, ltb, ◌==◌, if◌then◌else◌,
}
use star.Prelude.Dict.{put, delete}
use star.Http.Hosts.{same_text}
use star.Registar.Server.{
  AddrPair, Server, Effect, reset, host_connected, host_disconnected, peer_connected,
}
use star.Registar.Server.Relays.{Stats}

pub record BwBucket : Type 0 where
  pub t : ℕ
  pub bytes : ℕ

abbrev pub zero_bucket : BwBucket
zero_bucket = record { t = 0; bytes = 0 }

pub data Message (Key Addr : Type 0) : Type 0 where
  host_up peer_up : Key → AddrPair Addr → Message Key Addr
  host_down : Key → Message Key Addr

-- A subscriber's channel is its number, with the messages in it.
pub record Admin (Key Addr : Type 0) : Type 0 where
  pub active_hosts : List (Key × AddrPair Addr)
  pub subscribers : List (ℕ × List (Message Key Addr))
  pub bw_ring : List BwBucket
  pub bw_head : ℕ
  pub bw_count : ℕ
  pub bw_last : ℕ

-- `bwWindow`, in nanoseconds
abbrev pub bw_window : ℕ
bw_window = 24 * 3600 * 1000000000

abbrev pub channel_size : ℕ
channel_size = 10

-- `NewAdmin`; an interval of zero panics.
unfoldable pub new_admin : (Key Addr : Type 0) → ℕ → Option (Admin Key Addr)
new_admin Key Addr scrape_interval =
    if scrape_interval == 0
    then none
    else some (record {
      active_hosts = [];
      subscribers = [];
      bw_ring = replicate (bw_window / scrape_interval) zero_bucket;
      bw_head = 0;
      bw_count = 0;
      bw_last = 0;
    })

module _ {Key Addr : Type 0} where
  -- The sends of `broadcast`; a full channel misses the message.
  send_all :
      Message Key Addr → List (ℕ × List (Message Key Addr)) → List (ℕ × List (Message Key Addr))
  send_all msg [] = []
  send_all msg ((ch, msgs) ∷ subs) =
      (ch, if ltb (length msgs) channel_size then msgs ++ msg ∷ [] else msgs) ∷ send_all msg subs

  pub broadcast : Admin Key Addr → Message Key Addr → Admin Key Addr
  unfolding send_all
  broadcast a msg = record a { subscribers = send_all msg a.subscribers }

  -- The callbacks that `NewAdmin` sets. A reset of a stream is no callback.
  unfoldable pub callback : Discrete Key → Admin Key Addr → Effect Key Addr → Admin Key Addr
  unfolding broadcast
  callback dec a (reset str code) = a
  callback dec a (host_connected key addrs) =
      broadcast (record a { active_hosts = put dec key addrs a.active_hosts }) (host_up key addrs)
  callback dec a (host_disconnected key addrs) =
      broadcast (record a { active_hosts = delete dec key a.active_hosts }) (host_down key)
  callback dec a (peer_connected key addrs) = broadcast a (peer_up key addrs)

  -- `handleEvents` adds its channel, and takes it away when it ends.
  unfoldable pub subscribe : Admin Key Addr → ℕ → Admin Key Addr
  subscribe a ch = record a { subscribers = put ℕ_discrete ch [] a.subscribers }

  unfoldable pub unsubscribe : Admin Key Addr → ℕ → Admin Key Addr
  unsubscribe a ch = record a { subscribers = delete ℕ_discrete ch a.subscribers }

  -- A tick of `runBandwidthScraper` at a time, with the bytes relayed so far. A ring without
  -- buckets panics.
  unfoldable pub scrape : Admin Key Addr → ℕ → ℕ → Option (Admin Key Addr)
  scrape a t current =
      let size = length a.bw_ring in
      if size == 0
      then none
      else some (record a {
        bw_last = current;
        bw_ring =
            set a.bw_ring a.bw_head
              (record { t = t; bytes = (current + 2 ^ 64 - a.bw_last) % 2 ^ 64 });
        bw_head = (a.bw_head + 1) % size;
        bw_count = if ltb a.bw_count size then a.bw_count + 1 else a.bw_count;
      })

  -- `handleBandwidth`, with the ring as it is when the lock is held.
  unfoldable pub handle_bandwidth : Admin Key Addr → Option (List BwBucket)
  handle_bandwidth a =
      let size = length a.bw_ring in
      let start = (a.bw_head + size - a.bw_count) % size in
      if size == 0
      then none
      else some (tabulate (λ i. get_or a.bw_ring ((start + i) % size) zero_bucket) a.bw_count)

-- `handleStats`
pub record StatsResponse (Key Addr : Type 0) : Type 0 where
  pub stats : Stats
  pub hosts : List (Key × AddrPair Addr)

unfoldable pub handle_stats : {Key Addr : Type 0} → Admin Key Addr → Stats → StatsResponse Key Addr
handle_stats a stats = record { stats = stats; hosts = a.active_hosts }

-- `basicAuth`: whether the handler runs. A request has a password, or none.
unfoldable pub basic_auth : List ℕ → Option (List ℕ) → Bool
basic_auth [] password = true
basic_auth (c ∷ secret) none = false
basic_auth (c ∷ secret) (some password) = same_text password (c ∷ secret)
