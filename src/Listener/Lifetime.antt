-- ===== src/Listener/Lifetime.antt =====
-- A connection from its start to its end: the loop ends, and what it leaves behind.
use pybmpmon.Base.{
  ℕ, zero, suc, ◌⊎◌, ◌-◌, ◌<◌, ◌≤◌, ◌≡◌, ◌≢◌, refl, ◌∙◌, List, [], ◌∷◌, length, take, drop,
  length-drop, Option, none, some, arith, leb, Bool-cases, inl, inr, Result-cases,
}
use pybmpmon.Utils.Binary.{IpAddress}
use pybmpmon.Utils.Address.{same_peer}
use pybmpmon.Protocol.Bmp.{BmpHeader, bmp_header_size}
use pybmpmon.Protocol.BmpParser.Header.{parse_bmp_header}
use pybmpmon.Monitoring.PeerStats.{Family}
use pybmpmon.Monitoring.Collector.{lookup}
use pybmpmon.Monitoring.CollectorLaws.{
  Event, received, processed, error, disconnected, step, run, IsDict, step-IsDict, lookup-run,
}
use pybmpmon.Listener.Service.{Outside, Service, Attempt, done, raises, count_error}
use pybmpmon.Listener.Connection.{
  Closing, closes, lost, read_exactly, read_message, process_message, counted_error, serve,
  close_connection, handle_connection,
}
use mathlib.Core.Option.{bind}
use pybmpmon.Listener.NoEndlessLoop.{read_message-IsEnd, caught-process_message}
use pybmpmon.Listener.HandlerLaws.{Counters, process_message_keeps}

-- A collector that holds each peer once, and has for every other peer what another one has.
pub record IsApartFrom (peer_ip : Option IpAddress) (before c : Counters) : Type 0 where
  pub dict : IsDict c
  pub others :
      (j : Option IpAddress) → j ≢ peer_ip → lookup same_peer j c ≡ lookup same_peer j before

-- An event of the peer.
data IsOf (peer_ip : Option IpAddress) : Event (Option IpAddress) → Type 0 where
  of_received : (now : ℕ) → IsOf peer_ip (received peer_ip now)
  of_processed : (now : ℕ) (f : Family) → IsOf peer_ip (processed peer_ip now f)
  of_error : (now : ℕ) → IsOf peer_ip (error peer_ip now)
  of_disconnected : (now : ℕ) → IsOf peer_ip (disconnected peer_ip now)

lookup-step_other :
    (peer_ip j : Option IpAddress) (e : Event (Option IpAddress)) (c : Counters)
    → IsOf peer_ip e
    → IsDict c
    → j ≢ peer_ip
    → lookup same_peer j (step same_peer e c) ≡ lookup same_peer j c
unfolding run
lookup-step_other peer_ip j e c (of_received now) dict n =
    lookup-run same_peer j (e ∷ []) c dict ∙ ground arith
lookup-step_other peer_ip j e c (of_processed now f) dict n =
    lookup-run same_peer j (e ∷ []) c dict ∙ ground arith
lookup-step_other peer_ip j e c (of_error now) dict n =
    lookup-run same_peer j (e ∷ []) c dict ∙ ground arith
lookup-step_other peer_ip j e c (of_disconnected now) dict n =
    lookup-run same_peer j (e ∷ []) c dict ∙ ground arith

step-IsApartFrom :
    (peer_ip : Option IpAddress) (before : Counters) (e : Event (Option IpAddress)) (c : Counters)
    → IsOf peer_ip e
    → IsApartFrom peer_ip before c
    → IsApartFrom peer_ip before (step same_peer e c)
step-IsApartFrom peer_ip before e c of_peer apart = record {
  dict = step-IsDict same_peer e c apart.dict;
  others = λ j n. lookup-step_other peer_ip j e c of_peer apart.dict n ∙ apart.others j n;
}

module _ (o : Outside) where
  process-IsApartFrom :
      (peer_ip : Option IpAddress) (before : Counters) (message : Attempt (BmpHeader × List ℕ))
      (s : Service)
      → IsApartFrom peer_ip before s.collector
      → IsApartFrom peer_ip before (process_message o peer_ip message s).1.collector
  unfolding process_message step
  process-IsApartFrom none before (raises e) s apart = apart
  process-IsApartFrom none before (done m) s apart = apart
  process-IsApartFrom (some peer_ip) before message s apart =
      process_message_keeps o peer_ip (IsApartFrom (some peer_ip) before)
        (λ now c.
          step-IsApartFrom (some peer_ip) before (received (some peer_ip) now) c (of_received now))
        (λ now f c.
          step-IsApartFrom (some peer_ip) before (processed (some peer_ip) now f) c
            (of_processed now f))
        message s apart

  counted_error-IsApartFrom :
      (peer_ip : Option IpAddress) (before : Counters) (r : Attempt (Unit {0}) × Service)
      → IsApartFrom peer_ip before r.1.collector
      → IsApartFrom peer_ip before (counted_error o peer_ip r).collector
  unfolding counted_error count_error step
  counted_error-IsApartFrom peer_ip before (done u, s) apart = apart
  counted_error-IsApartFrom peer_ip before (raises e, s) apart =
      step-IsApartFrom peer_ip before (error peer_ip (o.clock s.ticks)) s.collector
        (of_error (o.clock s.ticks)) apart

read_message_shortens :
    (header_data stream : List ℕ) → length (read_message header_data stream).1 ≤ length stream
unfolding read_message read_exactly
read_message_shortens header_data stream = elim (Result-cases (parse_bmp_header header_data)) [
  | inl (header, p) ↦ ground (arith, p, length-drop (header.length - bmp_header_size) stream)
  | inr (x, p) ↦ ground (arith, p)
]

module _ (o : Outside) where
  serve_ends :
      (fuel : ℕ) (peer_ip : Option IpAddress) (before : Counters) (stream : List ℕ) (s : Service)
      → length stream < fuel
      → IsApartFrom peer_ip before s.collector
      → (t : Service) × (serve o fuel peer_ip stream s ≡ some t)
        × IsApartFrom peer_ip before t.collector
  unfolding serve bind
  serve_ends zero peer_ip before stream s enough apart = absurd (omega arith)
  serve_ends (suc fuel) peer_ip before stream s enough apart =
      let (message, rest) = read_message (take 6 stream) (drop 6 stream) in
      let shorter = read_message_shortens (take 6 stream) (drop 6 stream) in
      let left = length-drop 6 stream in
      elim (Bool-cases (leb 6 (length stream))) [
        | inr short ↦ (s, ground arith, apart)
        | inl long ↦
            let six : 6 ≤ length stream = ground arith in
            let next = process_message o peer_ip message s in
            let (t, ended, kept) =
              serve_ends fuel peer_ip before rest (counted_error o peer_ip next) (omega arith) (
                counted_error-IsApartFrom o peer_ip before next
                  (process-IsApartFrom o peer_ip before message s apart)) in
            let caught_one =
              caught-process_message o peer_ip message s
                (read_message-IsEnd (take 6 stream) (drop 6 stream)) in
            (t, rw (long, caught_one) ended, kept)
      ]

  -- Whatever bytes a peer sends before it closes the connection, and whatever the database
  -- answers, `_handle_connection` ends: neither its own loop nor that of a parser goes on for
  -- ever. From a collector that holds each peer once, the counters of the peer are gone then,
  -- unless `wait_closed` raises; those of every other peer are as before, and the collector
  -- holds each peer once.
  pub handle_connection_ends :
      (closing : Closing) (peer_ip : Option IpAddress) (stream : List ℕ) (s : Service)
      → IsDict s.collector
      → (t : Service) × (handle_connection o closing peer_ip stream s ≡ some t)
        × ((closing ≡ lost) ⊎ (lookup same_peer peer_ip t.collector ≡ none))
        × IsApartFrom peer_ip s.collector t.collector
  unfolding handle_connection close_connection run step
  handle_connection_ends closing peer_ip stream s dict =
      let (t, ended, apart) =
        serve_ends (suc (length stream)) peer_ip s.collector stream s (omega arith)
          (record { dict = dict; others = λ j n. refl }) in
      let gone =
        lookup-run same_peer peer_ip (disconnected peer_ip 0 ∷ []) t.collector apart.dict in
      let kept =
        step-IsApartFrom peer_ip s.collector (disconnected peer_ip 0) t.collector
          (of_disconnected 0) apart in
      (
        close_connection closing peer_ip t,
        rw ended refl,
        elim closing
            as (λ c.
              (c ≡ lost)
              ⊎ (lookup same_peer peer_ip (close_connection c peer_ip t).collector ≡ none)) [
                | lost ↦ inl refl
                | closes ↦ inr (gone ∙ ground arith)
              ],
        elim closing
            as (λ c. IsApartFrom peer_ip s.collector (close_connection c peer_ip t).collector) [
              | lost ↦ apart
              | closes ↦ kept
            ],
      )
