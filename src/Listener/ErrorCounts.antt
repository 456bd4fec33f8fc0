-- ===== src/Listener/ErrorCounts.antt =====
-- What the counters of a peer say of its messages: which of them were received, which of them failed.
use pybmpmon.Base.{ℕ, ◌+◌, ◌≡◌, refl, List, [], ◌∷◌, Option, none, some, arith}
use pybmpmon.Utils.Binary.{IpAddress}
use pybmpmon.Utils.Address.{same_peer}
use pybmpmon.Monitoring.PeerStats.{PeerStats, Family}
use pybmpmon.Monitoring.Collector.{lookup}
use pybmpmon.Monitoring.CollectorLaws.{
  received, processed, error, step, run, IsDict, step-IsDict, lookup-run,
}
use pybmpmon.Listener.Service.{Outside, Service, Attempt, done, raises, count_error}
use pybmpmon.Listener.Connection.{process_message, counted_error}
use pybmpmon.Listener.HandlerLaws.{Counters, process_message_keeps}
use pybmpmon.Listener.Framing.{Frame, handle_all}

abbrev errors_in : Option PeerStats → ℕ
errors_in none = 0
errors_in (some stats) = stats.errors

-- The errors that are counted for a peer.
abbrev pub errors_of : Option IpAddress → Counters → ℕ
errors_of peer_ip c = errors_in (lookup same_peer peer_ip c)

abbrev failure : {A : Type 0} → Attempt A → ℕ
failure (done a) = 0
failure (raises e) = 1

-- How many messages fail, as they are handled one by one.
abbrev pub failures : Outside → Option IpAddress → List Frame → Service → ℕ
failures o peer_ip [] s = 0
failures o peer_ip (frame ∷ frames) s =
    let r = process_message o peer_ip (done frame) s in
    failure r.0 + failures o peer_ip frames (counted_error o peer_ip r)

record HasErrors (peer_ip : Option IpAddress) (count : ℕ) (c : Counters) : Type 0 where
  dict : IsDict c
  counted : errors_of peer_ip c ≡ count

module _ (peer_ip : Option IpAddress) (count : ℕ) (c : Counters)
    (h : HasErrors peer_ip count c) where
  received-HasErrors : (now : ℕ) → HasErrors peer_ip count (step same_peer (received peer_ip now) c)
  unfolding run
  received-HasErrors now = record {
    dict = step-IsDict same_peer (received peer_ip now) c h.dict;
    counted =
        ground
          (arith, h.counted, lookup-run same_peer peer_ip (received peer_ip now ∷ []) c h.dict);
  }

  processed-HasErrors :
      (now : ℕ) (f : Family) → HasErrors peer_ip count (step same_peer (processed peer_ip now f) c)
  unfolding run
  processed-HasErrors now f = record {
    dict = step-IsDict same_peer (processed peer_ip now f) c h.dict;
    counted =
        ground
          (arith, h.counted, lookup-run same_peer peer_ip (processed peer_ip now f ∷ []) c h.dict);
  }

  error-HasErrors : (now : ℕ) → HasErrors peer_ip (1 + count) (step same_peer (error peer_ip now) c)
  unfolding run
  error-HasErrors now = record {
    dict = step-IsDict same_peer (error peer_ip now) c h.dict;
    counted =
        ground (arith, h.counted, lookup-run same_peer peer_ip (error peer_ip now ∷ []) c h.dict);
  }

module _ (o : Outside) where
  process-HasErrors :
      (peer_ip : Option IpAddress) (count : ℕ) (message : Attempt Frame) (s : Service)
      → HasErrors peer_ip count s.collector
      → HasErrors peer_ip count (process_message o peer_ip message s).1.collector
  unfolding process_message step
  process-HasErrors none count (raises e) s h = h
  process-HasErrors none count (done m) s h = h
  process-HasErrors (some peer_ip) count message s h =
      process_message_keeps o peer_ip (HasErrors (some peer_ip) count)
        (λ now c k. received-HasErrors (some peer_ip) count c k now)
        (λ now f c k. processed-HasErrors (some peer_ip) count c k now f) message s h

  counted_error-HasErrors :
      (peer_ip : Option IpAddress) (count : ℕ) (r : Attempt (Unit {0}) × Service)
      → HasErrors peer_ip count r.1.collector
      → HasErrors peer_ip (failure r.0 + count) (counted_error o peer_ip r).collector
  unfolding counted_error count_error step
  counted_error-HasErrors peer_ip count (done u, s) h = record {
    dict = h.dict;
    counted = omega (arith, h.counted);
  }
  counted_error-HasErrors peer_ip count (raises e, s) h =
      error-HasErrors peer_ip count s.collector h (o.clock s.ticks)

  handle_all-HasErrors :
      (peer_ip : Option IpAddress) (frames : List Frame) (count : ℕ) (s : Service)
      → HasErrors peer_ip count s.collector
      → HasErrors peer_ip
          (failures o peer_ip frames s + count)
          (handle_all o peer_ip frames s).collector
  handle_all-HasErrors peer_ip [] count s h = record {
    dict = h.dict;
    counted = omega (arith, h.counted);
  }
  handle_all-HasErrors peer_ip (frame ∷ frames) count s h =
      let r = process_message o peer_ip (done frame) s in
      let one =
        counted_error-HasErrors peer_ip count r
          (process-HasErrors peer_ip count (done frame) s h) in
      let all =
        handle_all-HasErrors peer_ip frames (failure r.0 + count) (counted_error o peer_ip r) one in
      record { dict = all.dict; counted = omega (arith, all.counted) }

  -- Over a sequence of messages, on a collector that holds each peer once, the peer's count of
  -- errors grows by the number of messages whose handling raises: each is counted once, and no
  -- other.
  pub handle_all_counts_errors :
      (peer_ip : Option IpAddress) (frames : List Frame) (s : Service)
      → IsDict s.collector
      → errors_of peer_ip (handle_all o peer_ip frames s).collector
        ≡ failures o peer_ip frames s + errors_of peer_ip s.collector
  handle_all_counts_errors peer_ip frames s dict =
      (handle_all-HasErrors peer_ip frames (errors_of peer_ip s.collector) s
        (record { dict = dict; counted = refl })).counted
