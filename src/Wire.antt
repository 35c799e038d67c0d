-- ===== src/Wire.antt =====
-- The frames of Cluster/remoteNode.go, `networkSender` and `networkConsumer`: 4 bytes with the length of
-- the rest, 2 bytes with the code, and the data.
pub mod Stream
pub mod Ending
use clustered_big_cache.Prelude.{
  ℕ, zero, suc, ◌+◌, ◌*◌, ◌-◌, ◌%◌, ◌^◌, Bool, true, false, not, ◌&&◌, ◌||◌, List, [], ◌∷◌, ◌++◌,
  ltb, ◌==◌, if◌then◌else◌, length, replicate,
}
use clustered_big_cache.Prelude.Outcome.{Outcome, ok, blocked, ◌>>=◌}
use clustered_big_cache.Bytes.{put_le, copy_at, read_le}
use clustered_big_cache.Comms.{Connection, CommsError, no_error, unusable, io_error, read_data}
use clustered_big_cache.Message.{NodeWireMessage, msg_verify, msg_verify_ok}

-- `remoteNodeState`
pub data RemoteNodeState : Type 0 where
  connecting connected disconnected handshake : RemoteNodeState

-- The body of the loop of `networkSender`, up to `SendData`: the frame of a message.
unfoldable pub frame : NodeWireMessage → Outcome (List ℕ)
frame msg = do
  d₁ ← put_le 4 (replicate (6 + length msg.bytes) 0) 0 ((length msg.bytes + 2) % 2 ^ 32)
  d₂ ← put_le 2 d₁ 4 msg.code
  copy_at d₂ 6 msg.bytes

-- The bytes that the loop of `networkSender` sends for a queue of messages, where the socket takes all.
unfoldable pub network_sender : List NodeWireMessage → Outcome (List ℕ)
network_sender [] = ok []
network_sender (msg ∷ more) = do bytes ← frame msg; rest ← network_sender more; ok (bytes ++ rest)

-- The part of a remote node that the consumer uses. `inbound` is the queue to the message handler, the
-- oldest message first; the node is not being shut down.
pub record Receiver : Type 0 where
  pub state : RemoteNodeState
  pub inbound : List NodeWireMessage
  pub dropped_msg : ℕ

-- `CHAN_SIZE`, the size of the queues of a remote node.
abbrev pub chan_size : ℕ
chan_size = 1024 * 64

-- `r.inboundMsgQueue <- msg`, which waits where the queue is full.
abbrev pub enqueue : Receiver → NodeWireMessage → Outcome Receiver
enqueue r msg =
    if ltb (length r.inbound) chan_size
    then ok (record r { inbound = r.inbound ++ (msg ∷ []) })
    else blocked

-- `queueInboundMessage`: in the handshake state only the two verification messages are accepted.
unfoldable pub queue_inbound_message : Receiver → NodeWireMessage → Outcome Receiver
queue_inbound_message r msg = elim r.state [
  | handshake ↦
      if not (msg.code == msg_verify) && not (msg.code == msg_verify_ok)
      then ok (record r { dropped_msg = r.dropped_msg + 1 })
      else enqueue r msg
  | disconnected ↦ ok r
  | connecting ↦ enqueue r msg
  | connected ↦ enqueue r msg
]

-- The condition of the loop of `networkConsumer`.
abbrev pub is_consuming : RemoteNodeState → Bool
is_consuming connected = true
is_consuming handshake = true
is_consuming connecting = false
is_consuming disconnected = false

-- The bytes behind a header. The length is a `uint32`, so what a header with 0 or 1 asks for wraps.
unfoldable pub read_body :
    Connection → (data_length : ℕ) → Outcome (CommsError × List ℕ × Connection)
read_body c data_length =
    if ltb 0 data_length then read_data c data_length else ok (no_error, [], c)

-- The loop of `networkConsumer`, with no change of the state by others. The fuel bounds the rounds.
unfoldable pub network_consumer :
    (fuel : ℕ) → Receiver → Connection → Outcome (Receiver × Connection)
network_consumer zero r c = blocked
network_consumer (suc fuel) r c = elim (is_consuming r.state) [
  | false ↦ ok (r, c)
  | true ↦ do
    (error, header, c₁) ← read_data c 6
    elim error [
      | no_error ↦ do
        size ← read_le 4 header 0
        msg_code ← read_le 2 header 4
        (error', bytes, c₂) ← read_body c₁ ((size + 2 ^ 32 - 2) % 2 ^ 32)
        elim error' [
          | no_error ↦ do
            r' ← queue_inbound_message r (record { code = msg_code; bytes = bytes })
            network_consumer fuel r' c₂
          | unusable ↦ ok (r, c₂)
          | io_error ↦ ok (r, c₂)
        ]
      | unusable ↦ ok (r, c₁)
      | io_error ↦ ok (r, c₁)
    ]
]
