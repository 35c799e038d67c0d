-- ===== src/Wire/Stream.antt =====
-- A stream of frames, as `networkSender` of Cluster/remoteNode.go writes it and `networkConsumer` reads it.
use clustered_big_cache.Prelude.{
  ℕ, suc, ◌+◌, ◌-◌, ◌%◌, ◌^◌, ◌<◌, ◌≤◌, ◌≡◌, refl, sym, ap, ◌∙◌, true, false, List, [], ◌∷◌, ◌++◌,
  arith, length, drop, replicate, length-replicate, length-append, length-drop, drop_all,
  append_assoc, append-nil, le→leb, lt→ltb, le→ltb, All, if◌then◌else◌, not, ◌&&◌, ◌==◌,
}
use clustered_big_cache.Prelude.Outcome.{ok, ◌>>=◌}
use clustered_big_cache.Bytes.{le_bytes, read_le}
use clustered_big_cache.Bytes.Laws.{put_le_next, copy_at_next, take-append, drop-append}
use clustered_big_cache.Bytes.Words.{le_value-le_bytes}
use clustered_big_cache.Comms.{Connection, no_error, read_data}
use clustered_big_cache.Message.{NodeWireMessage, msg_verify, msg_verify_ok}
use clustered_big_cache.Wire.{
  RemoteNodeState, handshake, connected, connecting, disconnected, Receiver, frame, network_sender,
  chan_size, queue_inbound_message, is_consuming, read_body, network_consumer,
}

module _ (msg : NodeWireMessage) where
  abbrev header : List ℕ
  header = le_bytes 4 ((length msg.bytes + 2) % 2 ^ 32) ++ le_bytes 2 msg.code

  frame-layout : frame msg ≡ ok (header ++ msg.bytes)
  unfolding frame
  frame-layout = rw (
    put_le_next 4 0 [] buf ((length msg.bytes + 2) % 2 ^ 32) refl (omega (arith, size)),
    put_le_next 2 4 (le_bytes 4 ((length msg.bytes + 2) % 2 ^ 32)) (drop 4 buf) msg.code refl
        (omega (arith, size, length-drop 4 buf)),
    copy_at_next 6 header (drop 2 (drop 4 buf)) msg.bytes refl
        (omega (arith, size, length-drop 4 buf, length-drop 2 (drop 4 buf))),
    nothing_left,
    append-nil (header ++ msg.bytes),
  )
    where
      buf : List ℕ
      buf = replicate (6 + length msg.bytes) 0

      size : length buf ≡ 6 + length msg.bytes
      size = length-replicate (6 + length msg.bytes) 0

      nothing_left : drop (length msg.bytes) (drop 2 (drop 4 buf)) ≡ []
      nothing_left =
          drop_all (drop 2 (drop 4 buf)) (length msg.bytes)
            (omega (arith, size, length-drop 4 buf, length-drop 2 (drop 4 buf)))

read_data_front :
    (c : Connection) (xs ys : List ℕ) (n : ℕ)
    → c.arriving ≡ xs ++ ys
    → n ≡ length xs
    → n ≤ c.memory
    → read_data c n ≡ ok (no_error, xs, record c { arriving = ys })
unfolding read_data
read_data_front c xs ys n e size small =
    let enough = le→leb n (length (xs ++ ys)) (omega (arith, length-append xs ys)) in
    rw (le→leb n c.memory small, e, enough, take-append xs ys n size, drop-append xs ys n size)

read_body_front :
    (c : Connection) (xs ys : List ℕ) (n : ℕ)
    → c.arriving ≡ xs ++ ys
    → n ≡ length xs
    → n ≤ c.memory
    → read_body c n ≡ ok (no_error, xs, record c { arriving = ys })
unfolding read_body
read_body_front c [] ys n e size small =
    let none_left = le→ltb 0 n (omega arith) in
    rw none_left (ap (λ a. ok (no_error, [], record c { arriving = a })) e)
read_body_front c (x ∷ xs) ys n e size small =
    let some_left = lt→ltb 0 n (omega arith) in
    rw some_left (read_data_front c (x ∷ xs) ys n e size small)

pub consume_step :
    (fuel : ℕ) (r : Receiver) (c c₁ c₂ : Connection) (top bytes : List ℕ) (size code : ℕ)
    → is_consuming r.state ≡ true
    → read_data c 6 ≡ ok (no_error, top, c₁)
    → read_le 4 top 0 ≡ ok size
    → read_le 2 top 4 ≡ ok code
    → read_body c₁ ((size + 2 ^ 32 - 2) % 2 ^ 32) ≡ ok (no_error, bytes, c₂)
    → network_consumer (suc fuel) r c ≡ (
        queue_inbound_message r (record { code = code; bytes = bytes }) >>= λ r'.
        network_consumer fuel r' c₂)
unfolding network_consumer
consume_step fuel r c c₁ c₂ top bytes size code on head first second body =
    rw (network_consumer, on, head, first, second, body) refl

-- A message that fits its frame.
pub record IsSendable (msg : NodeWireMessage) : Type 0 where
  pub code_fits : msg.code < 2 ^ 16
  pub length_fits : length msg.bytes + 2 < 2 ^ 32

size-header :
    (msg : NodeWireMessage) → IsSendable msg → read_le 4 (header msg) 0 ≡ ok (length msg.bytes + 2)
unfolding read_le
size-header msg f = ap ok (
    le_value-le_bytes 4 ((length msg.bytes + 2) % 2 ^ 32) (omega arith)
    ∙ omega (arith, f.length_fits))

code-header : (msg : NodeWireMessage) → IsSendable msg → read_le 2 (header msg) 4 ≡ ok msg.code
unfolding read_le
code-header msg f = ap ok (le_value-le_bytes 2 msg.code f.code_fits)

-- One round on a frame and what is behind it.
consume_frame :
    (fuel : ℕ) (r : Receiver) (c : Connection) (msg : NodeWireMessage) (rest : List ℕ)
    → is_consuming r.state ≡ true
    → IsSendable msg
    → 6 ≤ c.memory
    → length msg.bytes ≤ c.memory
    → c.arriving ≡ (header msg ++ msg.bytes) ++ rest
    → network_consumer (suc fuel) r c ≡ (
        queue_inbound_message r msg >>= λ r'.
        network_consumer fuel r' (record c { arriving = rest }))
consume_frame fuel r c msg rest on f six small e =
    consume_step fuel r c (record c { arriving = msg.bytes ++ rest }) (record c { arriving = rest })
      (header msg) msg.bytes (length msg.bytes + 2) msg.code on
      (read_data_front c (header msg) (msg.bytes ++ rest) 6
        (e ∙ append_assoc (header msg) msg.bytes rest) refl six)
      (size-header msg f) (code-header msg f)
      (read_body_front (record c { arriving = msg.bytes ++ rest }) msg.bytes rest
        ((length msg.bytes + 2 + 2 ^ 32 - 2) % 2 ^ 32) refl (omega (arith, f.length_fits))
        (omega (arith, f.length_fits)))

-- What of a run of messages a node in a state hands on: in the handshake the two verifications only.
abbrev pub accepted : RemoteNodeState → List NodeWireMessage → List NodeWireMessage
accepted handshake [] = []
accepted handshake (msg ∷ more) =
    if not (msg.code == msg_verify) && not (msg.code == msg_verify_ok)
    then accepted handshake more
    else msg ∷ accepted handshake more
accepted disconnected more = []
accepted connecting more = more
accepted connected more = more

-- The receiver once a message is queued or dropped, where its queue has room.
abbrev taken : Receiver → NodeWireMessage → Receiver
taken r msg = record r {
  inbound = r.inbound ++ accepted r.state (msg ∷ []);
  dropped_msg = r.dropped_msg + (1 - length (accepted r.state (msg ∷ [])));
}

abbrev deliver : Receiver → List NodeWireMessage → Receiver
deliver r [] = r
deliver r (msg ∷ more) = deliver (taken r msg) more

-- Where the queue of the node can still take what its state accepts.
abbrev pub Fits : Receiver → List NodeWireMessage → Type 0
Fits r msgs = length r.inbound + length (accepted r.state msgs) ≤ chan_size

queue-taken :
    (state : RemoteNodeState) (r : Receiver) (msg : NodeWireMessage)
    → r.state ≡ state
    → is_consuming state ≡ true
    → length r.inbound + length (accepted state (msg ∷ [])) ≤ chan_size
    → queue_inbound_message r msg ≡ ok (taken r msg)
unfolding queue_inbound_message
queue-taken handshake r msg e on room = ground (arith, append-nil r.inbound)
queue-taken disconnected r msg e on room = ground arith
queue-taken connecting r msg e on room = ground arith
queue-taken connected r msg e on room = ground arith

-- What the messages have done to the receiver.
pub record IsDelivered (r r' : Receiver) (msgs : List NodeWireMessage) : Type 0 where
  pub same_state : r'.state ≡ r.state
  pub handed_on : r'.inbound ≡ r.inbound ++ accepted r.state msgs
  pub counted : r'.dropped_msg + length (accepted r.state msgs) ≡ r.dropped_msg + length msgs

accepted-next :
    (state : RemoteNodeState) (msg : NodeWireMessage) (more : List NodeWireMessage)
    → accepted state (msg ∷ more) ≡ accepted state (msg ∷ []) ++ accepted state more
accepted-next handshake msg more = ground arith
accepted-next disconnected msg more = refl
accepted-next connecting msg more = refl
accepted-next connected msg more = refl

accepted-none : (state : RemoteNodeState) → accepted state [] ≡ []
accepted-none handshake = refl
accepted-none disconnected = refl
accepted-none connecting = refl
accepted-none connected = refl

most_one :
    (state : RemoteNodeState) (msg : NodeWireMessage) → length (accepted state (msg ∷ [])) ≤ 1
most_one handshake msg = ground arith
most_one disconnected msg = omega arith
most_one connecting msg = omega arith
most_one connected msg = omega arith

deliver-IsDelivered :
    (r : Receiver) (msgs : List NodeWireMessage) → IsDelivered r (deliver r msgs) msgs
deliver-IsDelivered r [] =
    let nothing = accepted-none r.state in
    record {
      same_state = refl;
      handed_on = sym (ap (λ l. r.inbound ++ l) nothing ∙ append-nil r.inbound);
      counted = omega (arith, ap length nothing);
    }
deliver-IsDelivered r (msg ∷ more) =
    let ih = deliver-IsDelivered (taken r msg) more in
    let split = accepted-next r.state msg more in
    record {
      same_state = ih.same_state;
      handed_on =
          ih.handed_on
          ∙ append_assoc r.inbound (accepted r.state (msg ∷ [])) (accepted r.state more)
          ∙ ap (λ l. r.inbound ++ l) (sym split);
      counted = omega (
        arith,
        ih.counted,
        most_one r.state msg,
        ap length split,
        length-append (accepted r.state (msg ∷ [])) (accepted r.state more),
      );
    }

-- Room for a run of messages is room for the first, and then for the others.
first-Fits :
    (r : Receiver) (msg : NodeWireMessage) (more : List NodeWireMessage)
    → Fits r (msg ∷ more)
    → Fits r (msg ∷ [])
first-Fits r msg more room = omega (
  arith,
  ap length (accepted-next r.state msg more),
  length-append (accepted r.state (msg ∷ [])) (accepted r.state more),
)

rest-Fits :
    (r : Receiver) (msg : NodeWireMessage) (more : List NodeWireMessage)
    → Fits r (msg ∷ more)
    → Fits (taken r msg) more
rest-Fits r msg more room = omega (
  arith,
  ap length (accepted-next r.state msg more),
  length-append (accepted r.state (msg ∷ [])) (accepted r.state more),
  length-append r.inbound (accepted r.state (msg ∷ [])),
)

-- At the end of the stream the loop stops.
consume_end :
    (fuel : ℕ) (r : Receiver) (c : Connection)
    → is_consuming r.state ≡ true
    → 6 ≤ c.memory
    → network_consumer (suc fuel) r (record c { arriving = [] })
      ≡ ok (r, record c { arriving = []; usable = false })
unfolding network_consumer read_data
consume_end fuel r c on six = rw (network_consumer, on, le→leb 6 c.memory six) refl

-- The messages that a receiver on the connection can allocate.
abbrev pub IsSmall : Connection → NodeWireMessage → Type 0
IsSmall c msg = length msg.bytes ≤ c.memory

-- A run of frames that arrives on a connection, and then its end.
consume-frames :
    (r : Receiver) (c : Connection) (msgs : List NodeWireMessage)
    → is_consuming r.state ≡ true
    → 6 ≤ c.memory
    → All IsSendable msgs
    → All (IsSmall c) msgs
    → Fits r msgs
    → (bytes : List ℕ) × (network_sender msgs ≡ ok bytes)
      × (network_consumer (suc (length msgs)) r (record c { arriving = bytes })
          ≡ ok (deliver r msgs, record c { arriving = []; usable = false }))
unfolding network_sender
consume-frames r c [] on six f small room = ([], refl, consume_end 0 r c on six)
consume-frames r c (msg ∷ more) on six f small room =
    let (rest, sent, done) =
      consume-frames (taken r msg) c more on six f.1 small.1 (rest-Fits r msg more room) in
    let stream = (header msg ++ msg.bytes) ++ rest in
    let one =
      consume_frame (suc (length more)) r (record c { arriving = stream }) msg rest on f.0 six
        small.0 refl in
    let queued = queue-taken r.state r msg refl on (first-Fits r msg more room) in
    let first = frame-layout msg in (stream, rw (first, sent) refl, one ∙ rw queued done)

-- What `networkSender` writes for a run of messages, `networkConsumer` of the other side reads back, if each
-- code fits 16 bits and each length with the code 32 bits, the machine can allocate each message, the queue of the
-- receiver has room for all that its state accepts, and the peer then closes. The consumer ends, after one round for
-- each message and one more, with every message that its state accepts handed on in order: when connected all, in the
-- handshake the two verifications, the others being counted as dropped.
pub consume-stream :
    (r : Receiver) (c : Connection) (msgs : List NodeWireMessage)
    → is_consuming r.state ≡ true
    → 6 ≤ c.memory
    → All IsSendable msgs
    → All (IsSmall c) msgs
    → Fits r msgs
    → (bytes : List ℕ) × (r' : Receiver) × (c' : Connection) × (network_sender msgs ≡ ok bytes)
      × (network_consumer (suc (length msgs)) r (record c { arriving = bytes }) ≡ ok (r', c'))
      × (c'.arriving ≡ [])
      × IsDelivered r r' msgs
consume-stream r c msgs on six f small room =
    let (bytes, sent, done) = consume-frames r c msgs on six f small room in
    (
      bytes,
      deliver r msgs,
      record c { arriving = []; usable = false },
      sent,
      done,
      refl,
      deliver-IsDelivered r msgs,
    )
