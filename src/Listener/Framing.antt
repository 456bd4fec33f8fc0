-- ===== src/Listener/Framing.antt =====
-- How `_handle_connection` cuts the stream into messages, and what it counts.
use pybmpmon.Base.{
  take_front, drop_front, take_append, drop_append, take-drop, ℕ, zero, suc, ◌-◌, ◌<◌, ◌≤◌, ◌≡◌,
  refl, ap, List, [], ◌∷◌, ◌++◌, length, length-append, take, drop, length-drop, true, Option, some,
  arith, leb, ok, All,
}
use mathlib.Core.List.{append_assoc}
use pybmpmon.Utils.Binary.{IpAddress}
use pybmpmon.Protocol.Bmp.{BmpHeader, bmp_header_size}
use pybmpmon.Protocol.BmpParser.Header.{parse_bmp_header}
use pybmpmon.Listener.Service.{Outside, Service, done}
use mathlib.Core.Option.{bind}
use pybmpmon.Listener.NoEndlessLoop.{caught-process_message}
use pybmpmon.Listener.Connection.{
  Closing, read_exactly, read_message, process_message, counted_error, serve, close_connection,
  handle_connection,
}

-- A message with its header.
abbrev pub Frame : Type 0
Frame = BmpHeader × List ℕ

-- Its first six bytes are the header, which says how long it is.
abbrev pub IsFrame : Frame → Type 0
IsFrame (header, full_message) =
    (parse_bmp_header (take bmp_header_size full_message) ≡ ok header)
    × (header.length ≡ length full_message)
    × (bmp_header_size ≤ length full_message)

abbrev pub joined : List Frame → List ℕ
joined [] = []
joined ((header, full_message) ∷ frames) = full_message ++ joined frames

-- The messages handled one by one, whatever the handling of one of them raises.
abbrev pub handle_all : Outside → Option IpAddress → List Frame → Service → Service
handle_all o peer_ip [] s = s
handle_all o peer_ip (frame ∷ frames) s =
    handle_all o peer_ip frames (counted_error o peer_ip (process_message o peer_ip (done frame) s))

read_exactly_front :
    (n : ℕ) (xs ys : List ℕ) → n ≡ length xs → read_exactly n (xs ++ ys) ≡ (done xs, ys)
unfolding read_exactly
read_exactly_front n xs ys h =
    rw h (ground (arith, length-append xs ys, take_front xs ys, drop_front xs ys))

read_message_body :
    (header : BmpHeader) (header_data body rest : List ℕ)
    → parse_bmp_header header_data ≡ ok header
    → header.length - bmp_header_size ≡ length body
    → read_message header_data (body ++ rest) ≡ (done (header, header_data ++ body), rest)
unfolding read_message
read_message_body header header_data body rest parses says =
    ground (arith, parses, read_exactly_front (header.length - bmp_header_size) body rest says)

-- A frame at the front of the stream is read as it stands.
read_message_frame :
    (header : BmpHeader) (full rest : List ℕ)
    → IsFrame (header, full)
    → read_message (take bmp_header_size (full ++ rest)) (drop bmp_header_size (full ++ rest))
      ≡ (done (header, full), rest)
read_message_frame header full rest (parses, says, long) =
    let same = length-drop 6 full in
    rw
      (
        take_append 6 full rest long,
        drop_append 6 full rest long,
        read_message_body header (take 6 full) (drop 6 full) rest parses (omega arith),
      )
      (ap (λ m. (done (header, m), rest)) (take-drop 6 full))

module _ (o : Outside) (peer_ip : Option IpAddress) where
  serve_frames :
      (fuel : ℕ) (frames : List Frame) (tail : List ℕ) (s : Service)
      → All IsFrame frames
      → length tail < bmp_header_size
      → length frames < fuel
      → serve o fuel peer_ip (joined frames ++ tail) s ≡ some (handle_all o peer_ip frames s)
  unfolding serve bind
  serve_frames zero frames tail s valid short enough = absurd (omega arith)
  serve_frames (suc fuel) [] tail s valid short enough = ground arith
  serve_frames (suc fuel) ((header, full) ∷ frames) tail s (valid, valids) short enough =
      let rest = joined frames ++ tail in
      let long : leb 6 (length (full ++ rest)) ≡ true = ground (arith, length-append full rest) in
      rw
        (
          append_assoc full (joined frames) tail,
          long,
          read_message_frame header full rest valid,
          caught-process_message o peer_ip (done (header, full)) s (λ e. cc),
        )
        (serve_frames fuel frames tail _ valids short (omega arith))

  frames_short : (frames : List Frame) → All IsFrame frames → length frames ≤ length (joined frames)
  frames_short [] valid = omega arith
  frames_short ((header, full) ∷ frames) ((parses, says, long), valids) =
      omega (arith, length-append full (joined frames), frames_short frames valids)

  -- On a stream of messages one behind the other, each with a header that parses and says its
  -- length, and fewer than six bytes behind them, `_handle_connection` does what handling the
  -- messages one by one in this order does, whatever the handling of one of them raises, and
  -- then closes the connection.
  pub handle_connection_frames :
      (closing : Closing) (frames : List Frame) (tail : List ℕ) (s : Service)
      → All IsFrame frames
      → length tail < bmp_header_size
      → handle_connection o closing peer_ip (joined frames ++ tail) s
        ≡ some (close_connection closing peer_ip (handle_all o peer_ip frames s))
  unfolding handle_connection
  handle_connection_frames closing frames tail s valid short =
      let fuel = suc (length (joined frames ++ tail)) in
      let enough : length frames < fuel =
        omega (arith, length-append (joined frames) tail, frames_short frames valid) in
      rw (serve_frames fuel frames tail s valid short enough) refl
