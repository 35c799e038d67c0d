-- ===== src/Wire/Ending.antt =====
-- `networkConsumer` of Cluster/remoteNode.go on any bytes whatever.
use clustered_big_cache.Prelude.{
  ℕ, zero, suc, ◌+◌, ◌-◌, ◌*◌, ◌%◌, ◌^◌, ◌<◌, ◌≤◌, ◌≡◌, ◌⊎◌, inl, inr, refl, ◌∙◌, subst, true,
  false, List, ◌∷◌, ◌++◌, [], arith, length, take, drop, length-drop, length-take, length-append,
  leb, ltb, le→leb, ltb→le, Bool-cases, leb→le, not, ◌&&◌, ◌==◌,
}
use clustered_big_cache.Prelude.Outcome.{ok, blocked}
use clustered_big_cache.Bytes.{le_value, read_le}
use clustered_big_cache.Comms.{Connection, CommsError, no_error, unusable, io_error, read_data}
use clustered_big_cache.Message.{NodeWireMessage, msg_verify, msg_verify_ok}
use clustered_big_cache.Wire.{
  RemoteNodeState, handshake, connected, connecting, disconnected, Receiver, enqueue,
  queue_inbound_message, is_consuming, read_body, network_consumer, chan_size,
}
use clustered_big_cache.Wire.Stream.{consume_step}

Error-cases : (e : CommsError) → (e ≡ no_error) ⊎ ((e ≡ unusable) ⊎ (e ≡ io_error))
Error-cases no_error = inl refl
Error-cases unusable = inr (inl refl)
Error-cases io_error = inr (inr refl)

-- A read of at most what can be allocated does not panic, and never makes the bytes that are to come more.
read_body_lem :
    (c : Connection) (n : ℕ)
    → n ≤ c.memory
    → (e : CommsError) × (bytes : List ℕ) × (c' : Connection) × (read_body c n ≡ ok (e, bytes, c'))
      × (length c'.arriving ≤ length c.arriving)
      × (c'.memory ≡ c.memory)
unfolding read_body read_data
read_body_lem c n small = elim (Bool-cases (ltb 0 n)) [
  | inr zero_bytes ↦ (no_error, [], c, rw zero_bytes refl, omega arith, refl)
  | inl some_bytes ↦ elim (Bool-cases (leb n (length c.arriving))) [
    | inl enough ↦ (
      no_error,
      take n c.arriving,
      record c { arriving = drop n c.arriving },
      rw (some_bytes, le→leb n c.memory small, enough) refl,
      omega (arith, length-drop n c.arriving),
      refl,
    )
    | inr short ↦ (
      io_error,
      [],
      record c { arriving = []; usable = false },
      rw (some_bytes, le→leb n c.memory small, short) refl,
      omega arith,
      refl,
    )
  ]
]

read_top :
    (c : Connection)
    → leb 6 (length c.arriving) ≡ true
    → 6 ≤ c.memory
    → read_data c 6 ≡ ok (no_error, take 6 c.arriving, record c { arriving = drop 6 c.arriving })
unfolding read_data
read_top c long six = rw (le→leb 6 c.memory six, long) refl

stop_closed :
    (fuel : ℕ) (r : Receiver) (c : Connection)
    → is_consuming r.state ≡ false
    → network_consumer (suc fuel) r c ≡ ok (r, c)
unfolding network_consumer
stop_closed fuel r c off = rw (network_consumer, off) refl

stop_short :
    (fuel : ℕ) (r : Receiver) (c : Connection)
    → is_consuming r.state ≡ true
    → leb 6 (length c.arriving) ≡ false
    → 6 ≤ c.memory
    → network_consumer (suc fuel) r c ≡ ok (r, record c { arriving = []; usable = false })
unfolding network_consumer read_data
stop_short fuel r c on short six = rw (network_consumer, on, le→leb 6 c.memory six, short) refl

stop_body :
    (fuel : ℕ) (r : Receiver) (c c₁ c₂ : Connection) (top bytes : List ℕ) (size code : ℕ)
    (e : CommsError)
    → is_consuming r.state ≡ true
    → read_data c 6 ≡ ok (no_error, top, c₁)
    → read_le 4 top 0 ≡ ok size
    → read_le 2 top 4 ≡ ok code
    → read_body c₁ ((size + 2 ^ 32 - 2) % 2 ^ 32) ≡ ok (e, bytes, c₂)
    → (e ≡ unusable) ⊎ (e ≡ io_error)
    → network_consumer (suc fuel) r c ≡ ok (r, c₂)
unfolding network_consumer
stop_body fuel r c c₁ c₂ top bytes size code e on head first second body (inl bad) =
    rw (network_consumer, on, head, first, second, body, bad) refl
stop_body fuel r c c₁ c₂ top bytes size code e on head first second body (inr bad) =
    rw (network_consumer, on, head, first, second, body, bad) refl

read_fields :
    (top : List ℕ)
    → length top ≡ 6
    → (read_le 4 top 0 ≡ ok (le_value (take 4 (drop 0 top))))
      × (read_le 2 top 4 ≡ ok (le_value (take 2 (drop 4 top))))
unfolding read_le
read_fields top n =
    (rw (le→leb 4 (length top) (omega arith)) refl, rw (le→leb 6 (length top) (omega arith)) refl)

-- A message is dropped or queued, or waits on a full queue.
enqueue_cases :
    (r : Receiver) (msg : NodeWireMessage)
    → ((r' : Receiver) × (enqueue r msg ≡ ok r') × (length r'.inbound ≤ length r.inbound + 1))
      ⊎ ((enqueue r msg ≡ blocked) × (chan_size ≤ length r.inbound))
enqueue_cases r msg = elim (Bool-cases (ltb (length r.inbound) chan_size)) [
  | inl room ↦ inl (
    record r { inbound = r.inbound ++ (msg ∷ []) },
    rw room refl,
    omega (arith, length-append r.inbound (msg ∷ [])),
  )
  | inr full ↦ inr (rw full refl, ltb→le (length r.inbound) chan_size full)
]

queue_enqueues :
    (r : Receiver) (msg : NodeWireMessage)
    → (r.state ≡ connecting)
      ⊎ ((r.state ≡ connected)
          ⊎ ((r.state ≡ handshake)
              × ((not (msg.code == msg_verify) && not (msg.code == msg_verify_ok)) ≡ false)))
    → queue_inbound_message r msg ≡ enqueue r msg
unfolding queue_inbound_message
queue_enqueues r msg (inl e) = ground arith
queue_enqueues r msg (inr (inl e)) = ground arith
queue_enqueues r msg (inr (inr (e, keeps))) = ground arith

queue_cases :
    (state : RemoteNodeState) (r : Receiver) (msg : NodeWireMessage)
    → r.state ≡ state
    → ((r' : Receiver) × (queue_inbound_message r msg ≡ ok r')
        × (length r'.inbound ≤ length r.inbound + 1))
      ⊎ ((queue_inbound_message r msg ≡ blocked) × (chan_size ≤ length r.inbound))
unfolding queue_inbound_message
queue_cases handshake r msg e =
    elim (Bool-cases (not (msg.code == msg_verify) && not (msg.code == msg_verify_ok))) [
      | inl drops ↦ inl (record r { dropped_msg = r.dropped_msg + 1 }, ground arith, omega arith)
      | inr keeps ↦ rw (queue_enqueues r msg (inr (inr (e, keeps)))) (enqueue_cases r msg)
    ]
queue_cases disconnected r msg e = inl (r, ground arith, omega arith)
queue_cases connecting r msg e = rw (queue_enqueues r msg (inl e)) (enqueue_cases r msg)
queue_cases connected r msg e = rw (queue_enqueues r msg (inr (inl e))) (enqueue_cases r msg)

-- The two ways in which the consumer ends up.
abbrev pub EndsOrFills : ℕ → Receiver → Connection → Type 0
EndsOrFills fuel r c =
    ((r' : Receiver) × (c' : Connection) × (network_consumer fuel r c ≡ ok (r', c')))
    ⊎ ((network_consumer fuel r c ≡ blocked)
        × (6 * chan_size < 6 * length r.inbound + length c.arriving))

-- Whatever bytes arrive, on a machine that can allocate 2 ^ 32 bytes, the consumer never panics. After at most one
-- round for each byte and one more it has ended, or it waits on the full inbound queue, and this only where the
-- queue and the frames that can be among the bytes, of 6 bytes or more each, are more than the queue can hold.
pub network_consumer_ends :
    (fuel : ℕ) (r : Receiver) (c : Connection)
    → length c.arriving < fuel
    → 2 ^ 32 ≤ c.memory
    → EndsOrFills fuel r c
network_consumer_ends zero r c h large = absurd (omega arith)
network_consumer_ends (suc fuel) r c h large = elim (Bool-cases (is_consuming r.state)) [
  | inr off ↦ inl (r, c, stop_closed fuel r c off)
  | inl on ↦ elim (Bool-cases (leb 6 (length c.arriving))) [
    | inr short ↦
        inl (
          r,
          record c { arriving = []; usable = false },
          stop_short fuel r c on short (omega arith),
        )
    | inl long ↦
        let top = take 6 c.arriving in
        let c₁ : Connection = record c { arriving = drop 6 c.arriving } in
        let six = leb→le 6 (length c.arriving) long in
        let (first, second) = read_fields top (omega (arith, length-take 6 c.arriving)) in
        let size = le_value (take 4 (drop 0 top)) in
        let code = le_value (take 2 (drop 4 top)) in
        let (e, bytes, c₂, body, less, same) =
          read_body_lem c₁ ((size + 2 ^ 32 - 2) % 2 ^ 32) (omega arith) in
        let head = read_top c long (omega arith) in
        elim (Error-cases e) [
          | inr bad ↦
              inl (
                r,
                c₂,
                stop_body fuel r c c₁ c₂ top bytes size code e on head first second body bad,
              )
          | inl good ↦
              let msg : NodeWireMessage = record { code = code; bytes = bytes } in
              let step = consume_step fuel r c c₁ c₂ top bytes size code on head first second (
                subst (λ x. read_body c₁ ((size + 2 ^ 32 - 2) % 2 ^ 32) ≡ ok (x, bytes, c₂)) good
                  body) in
              elim (queue_cases r.state r msg refl) [
                | inr (waits, full) ↦
                    inr (step ∙ rw waits refl, omega (arith, length-drop 6 c.arriving))
                | inl (r', queued, grown) ↦
                    elim (network_consumer_ends fuel r' c₂ (omega (arith, length-drop 6 c.arriving))
                      (omega arith)) [
                        | inl (r'', c', done) ↦ inl (r'', c', step ∙ rw queued done)
                        | inr (waits, full) ↦
                            inr (step ∙ rw queued waits, omega (arith, length-drop 6 c.arriving))
                      ]
              ]
        ]
  ]
]
