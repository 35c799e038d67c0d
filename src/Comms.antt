-- ===== src/Comms.antt =====
-- comms/connection.go: whole messages over a TCP connection.
-- `arriving` are the bytes that the connection still has to deliver, those in the buffer of the reader
-- included, before the peer closes it, and `sent` the bytes that the socket has taken. What each `Write`
-- of the socket does is an argument, the list of the results in order. `memory` is the longest array that
-- `make` can get on the machine: a longer one ends the program, `panic`.
pub mod Sending
use clustered_big_cache.Prelude.{
  ℕ, ◌-◌, Bool, true, false, List, [], ◌∷◌, ◌++◌, leb, if◌then◌else◌, length, take, drop,
}
use clustered_big_cache.Prelude.Outcome.{Outcome, ok, blocked, check, ◌>>◌}

pub record Connection : Type 0 where
  pub usable : Bool
  pub arriving : List ℕ
  pub sent : List ℕ
  pub memory : ℕ

-- A `Write` of the socket: it takes that many bytes, and may fail all the same, with `io.EOF` or another error.
pub data WriteResult : Type 0 where
  wrote end_of_file broken : ℕ → WriteResult

-- The error of a call.
pub data CommsError : Type 0 where
  no_error unusable io_error : CommsError

-- The loop of `SendData`, with the data that is left. Where the socket gives no more results the call waits.
unfoldable pub send_loop :
    List WriteResult → Connection → (left : List ℕ) → Outcome (CommsError × Connection)
send_loop results c [] = ok (no_error, c)
send_loop [] c (b ∷ left) = blocked
send_loop (wrote n ∷ results) c (b ∷ left) =
    send_loop results (record c { sent = c.sent ++ take n (b ∷ left) }) (drop n (b ∷ left))
send_loop (end_of_file n ∷ results) c (b ∷ left) =
    ok (io_error, record c { usable = false; sent = c.sent ++ take n (b ∷ left) })
send_loop (broken n ∷ results) c (b ∷ left) =
    ok (io_error, record c { sent = c.sent ++ take n (b ∷ left) })

-- `SendData`
unfoldable pub send_data :
    List WriteResult → Connection → List ℕ → Outcome (CommsError × Connection)
send_data results c bytes = if c.usable then send_loop results c bytes else ok (unusable, c)

-- `ReadData` without a timeout: the array first, and then `io.ReadFull`. Where the peer has closed before the last byte, the bytes
-- that came are lost, and the connection is not usable any more.
unfoldable pub read_data : Connection → (size : ℕ) → Outcome (CommsError × List ℕ × Connection)
read_data c size =
    check (leb size c.memory)
    >> (if leb size (length c.arriving)
        then ok (no_error, take size c.arriving, record c { arriving = drop size c.arriving })
        else ok (io_error, [], record c { arriving = []; usable = false }))
