-- ===== src/Examples/Wires.antt =====
-- message/*.go, comms/connection.go and the frames of Cluster/remoteNode.go on small inputs.
use clustered_big_cache.Prelude.{
  ℕ, ◌^◌, ◌≡◌, refl, true, List, [], ◌∷◌, ◌++◌, arith, length, replicate, length-replicate,
}
use clustered_big_cache.Prelude.Outcome.{ok, panic, ◌>>=◌}
use clustered_big_cache.Comms.{Connection, wrote, broken, no_error, io_error, send_data, send_loop}
use clustered_big_cache.Comms.Sending.{IsSent, send_data-IsSent, send_data_ends}
use clustered_big_cache.Message.{
  NodeWireMessage, PutMessage, GetRspMessage, msg_put, msg_ping, msg_verify, serialize_put,
  deserialize_put,
}
use clustered_big_cache.Message.RoundTrip.{put-round_trip, put_long_key}
use clustered_big_cache.Wire.{handshake, Receiver, network_sender, network_consumer}
use clustered_big_cache.Wire.Stream.{IsDelivered, consume-stream}
use clustered_big_cache.Wire.Ending.{EndsOrFills, network_consumer_ends}

abbrev a_put : PutMessage
a_put = record { code = 0; key = 97 ∷ []; expiry = 300; bytes = 7 ∷ 8 ∷ [] }

put-round_trip_example :
    (serialize_put a_put >>= deserialize_put) ≡ ok (record a_put { code = msg_put })
put-round_trip_example = put-round_trip a_put (omega arith) (omega arith)

abbrev a_response : GetRspMessage
a_response = record { code = 0; pending_key = 97 ∷ 120 ∷ []; bytes = 7 ∷ [] }

abbrev long_put : PutMessage
long_put = record { code = 0; key = replicate 65530 97; expiry = 300; bytes = [] }

long_key : length long_put.key ≡ 65530
long_key = length-replicate {A = ℕ} 65530 97

put_long_key_example :
    (msg : NodeWireMessage) × (serialize_put long_put ≡ ok msg) × (deserialize_put msg ≡ panic)
put_long_key_example =
    put_long_key long_put (omega arith) (omega (arith, long_key)) (omega (arith, long_key))

abbrev link : Connection
link = record { usable = true; arriving = []; sent = []; memory = 2 ^ 32 }

abbrev three : List ℕ
three = 1 ∷ 2 ∷ 3 ∷ []

cut_short :
    send_data (wrote 1 ∷ broken 1 ∷ []) link three
    ≡ ok (io_error, record link { sent = 1 ∷ 2 ∷ [] })
unfolding send_data send_loop
cut_short = refl

send_data-IsSent_example : IsSent link (record link { sent = 1 ∷ 2 ∷ [] }) three io_error
send_data-IsSent_example =
    send_data-IsSent (wrote 1 ∷ broken 1 ∷ []) link (record link { sent = 1 ∷ 2 ∷ [] }) three
      io_error cut_short

send_data_ends_example :
    (c' : Connection) × (send_data (wrote 2 ∷ wrote 1 ∷ wrote 1 ∷ []) link three
      ≡ ok (no_error, c'))
    × (c'.sent ≡ [] ++ three)
send_data_ends_example =
    send_data_ends (wrote 2 ∷ wrote 1 ∷ wrote 1 ∷ []) link three refl
      (omega arith, (omega arith, (omega arith, tt))) (omega arith)

abbrev receiver : Receiver
receiver = record { state = handshake; inbound = []; dropped_msg = 0 }

abbrev messages : List NodeWireMessage
messages = record { code = msg_verify; bytes = three } ∷ record { code = msg_ping; bytes = [] } ∷ []

consume-stream_example :
    (bytes : List ℕ) × (r' : Receiver) × (c' : Connection) × (network_sender messages ≡ ok bytes)
    × (network_consumer 3 receiver (record link { arriving = bytes }) ≡ ok (r', c'))
    × (c'.arriving ≡ [])
    × IsDelivered receiver r' messages
consume-stream_example =
    consume-stream receiver link messages refl (omega arith)
      (
        record { code_fits = omega arith; length_fits = omega arith },
        (record { code_fits = omega arith; length_fits = omega arith }, tt),
      )
      (omega arith, (omega arith, tt)) (omega arith)

network_consumer_ends_example : EndsOrFills 12 receiver (record link { arriving = replicate 11 0 })
network_consumer_ends_example =
    network_consumer_ends 12 receiver (record link { arriving = replicate 11 0 }) (omega arith)
      (omega arith)
