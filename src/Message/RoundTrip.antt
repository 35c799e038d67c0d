-- ===== src/Message/RoundTrip.antt =====
-- The binary messages of message/putMessage.go and message/getRspMessage.go there and back.
use clustered_big_cache.Prelude.{
  ℕ, append-nil, ◌+◌, ◌%◌, ◌^◌, ◌<◌, ◌≤◌, ◌≡◌, refl, List, [], ◌++◌, arith, length, replicate,
  length-append, length-replicate, length-drop, drop_all, drop, le→leb, ◌∙◌, ap, sym, append_assoc,
}
use clustered_big_cache.Prelude.Outcome.{Outcome, ok, panic, ◌>>=◌}
use clustered_big_cache.Bytes.{le_bytes, read_le, copy_at, slice, slice_from}
use clustered_big_cache.Bytes.Laws.{
  slice_middle, slice_reversed, slice_from_behind, put_le_next, copy_at_next,
}
use clustered_big_cache.Bytes.Words.{le_value-le_bytes}
use clustered_big_cache.Message.{
  msg_put, msg_get_rsp, NodeWireMessage, PutMessage, GetRspMessage, serialize_put, deserialize_put,
  serialize_get_rsp, deserialize_get_rsp,
}

-- A key and then the data, copied behind a header into the room that is left.
copy_both :
    {B : Type 0} (p r key body : List ℕ) (off : ℕ) (f : List ℕ → Outcome B)
    → off ≡ length p
    → length r ≡ length key + length body
    → (copy_at (p ++ r) off key >>= λ d. copy_at d (off + length key) body >>= f)
      ≡ f (p ++ (key ++ body))
copy_both p r key body off f e h =
    let left = length-drop (length key) r in
    rw (
      copy_at_next off p r key e (omega arith),
      copy_at_next (off + length key) (p ++ key) (drop (length key) r) body
          (omega (arith, length-append p key)) (omega (arith, left)),
      drop_all (drop (length key) r) (length body) (omega (arith, left)),
      append-nil ((p ++ key) ++ body),
      append_assoc p key body,
    )

-- The two parts cut out again, where the end of the key does not wrap.
cut_both :
    {B : Type 0} (p key body : List ℕ) (off : ℕ) (f : List ℕ → List ℕ → Outcome B)
    → off ≡ length p
    → off + length key < 2 ^ 16
    → (slice (p ++ (key ++ body)) off ((off + length key) % 2 ^ 16) >>= λ k.
        slice_from (p ++ (key ++ body)) ((off + length key) % 2 ^ 16) >>= λ d. f k d)
      ≡ f key body
cut_both p key body off f e h =
    let key_end : (off + length key) % 2 ^ 16 ≡ off + length key = omega arith in
    let regroup : p ++ (key ++ body) ≡ (p ++ key) ++ body = sym (append_assoc p key body) in
    rw (
      key_end,
      slice_middle p key body off (off + length key) e (omega arith),
      regroup,
      slice_from_behind (p ++ key) body (off + length key) (omega (arith, length-append p key)),
    )

module _ (pm : PutMessage) where
  abbrev put_header : List ℕ
  put_header = le_bytes 8 pm.expiry ++ le_bytes 2 (length pm.key % 2 ^ 16)

  serialize_put-layout :
      serialize_put pm ≡ ok (record { code = msg_put; bytes = put_header ++ (pm.key ++ pm.bytes) })
  unfolding serialize_put
  serialize_put-layout = rw (
    put_le_next 8 0 [] buf pm.expiry refl (omega (arith, size)),
    put_le_next 2 8 (le_bytes 8 pm.expiry) (drop 8 buf) (length pm.key % 2 ^ 16) refl
        (omega (arith, size, length-drop 8 buf)),
    copy_both {B = NodeWireMessage} put_header (drop 2 (drop 8 buf)) pm.key pm.bytes 10
        (λ d. ok (record { code = msg_put; bytes = d })) refl
        (omega (arith, size, length-drop 8 buf, length-drop 2 (drop 8 buf))),
  )
    where
      buf : List ℕ
      buf = replicate (length pm.key + length pm.bytes + 2 + 8) 0

      size : length buf ≡ length pm.key + length pm.bytes + 2 + 8
      size = length-replicate (length pm.key + length pm.bytes + 2 + 8) 0

  abbrev put_wire : NodeWireMessage
  put_wire = record { code = msg_put; bytes = put_header ++ (pm.key ++ pm.bytes) }

  expiry-layout : pm.expiry < 2 ^ 64 → read_le 8 put_wire.bytes 0 ≡ ok pm.expiry
  unfolding read_le
  expiry-layout h =
      rw (le→leb 8 (length put_wire.bytes) (omega arith), le_value-le_bytes 8 pm.expiry h)

  put_key_len-layout : length pm.key < 2 ^ 16 → read_le 2 put_wire.bytes 8 ≡ ok (length pm.key)
  unfolding read_le
  put_key_len-layout h =
      rw (le→leb 10 (length put_wire.bytes) (omega arith))
        (ap ok (le_value-le_bytes 2 (length pm.key % 2 ^ 16) (omega arith) ∙ omega arith))

  deserialize_put-layout :
      pm.expiry < 2 ^ 64
      → length pm.key < 65526
      → deserialize_put put_wire ≡ ok (record pm { code = msg_put })
  unfolding deserialize_put
  deserialize_put-layout he hk = rw (
    expiry-layout he,
    put_key_len-layout (omega arith),
    cut_both {B = PutMessage} put_header pm.key pm.bytes 10
        (λ k d. ok (record { code = msg_put; key = k; expiry = pm.expiry; bytes = d })) refl
        (omega arith),
  )

  deserialize_put_long :
      pm.expiry < 2 ^ 64
      → 65526 ≤ length pm.key
      → length pm.key < 2 ^ 16
      → deserialize_put put_wire ≡ panic
  unfolding deserialize_put
  deserialize_put_long he lo hi = rw (
    expiry-layout he,
    put_key_len-layout hi,
    slice_reversed put_wire.bytes 10 ((10 + length pm.key) % 2 ^ 16) (omega arith),
  )

module _ (gm : GetRspMessage) where
  abbrev rsp_header : List ℕ
  rsp_header = le_bytes 2 (length gm.pending_key % 2 ^ 16)

  abbrev rsp_wire : NodeWireMessage
  rsp_wire = record { code = msg_get_rsp; bytes = rsp_header ++ (gm.pending_key ++ gm.bytes) }

  serialize_get_rsp-layout : serialize_get_rsp gm ≡ ok rsp_wire
  unfolding serialize_get_rsp
  serialize_get_rsp-layout = rw (
    put_le_next 2 0 [] buf (length gm.pending_key % 2 ^ 16) refl (omega (arith, size)),
    copy_both {B = NodeWireMessage} rsp_header (drop 2 buf) gm.pending_key gm.bytes 2
        (λ d. ok (record { code = msg_get_rsp; bytes = d })) refl
        (omega (arith, size, length-drop 2 buf)),
  )
    where
      buf : List ℕ
      buf = replicate (length gm.pending_key + length gm.bytes + 2) 0

      size : length buf ≡ length gm.pending_key + length gm.bytes + 2
      size = length-replicate (length gm.pending_key + length gm.bytes + 2) 0

  rsp_key_len-layout :
      length gm.pending_key < 2 ^ 16 → read_le 2 rsp_wire.bytes 0 ≡ ok (length gm.pending_key)
  unfolding read_le
  rsp_key_len-layout h =
      rw (le→leb 2 (length rsp_wire.bytes) (omega arith))
        (ap ok (le_value-le_bytes 2 (length gm.pending_key % 2 ^ 16) (omega arith) ∙ omega arith))

  deserialize_get_rsp-layout :
      length gm.pending_key < 65534
      → deserialize_get_rsp rsp_wire ≡ ok (record gm { code = msg_get_rsp })
  unfolding deserialize_get_rsp
  deserialize_get_rsp-layout h = rw (
    rsp_key_len-layout (omega arith),
    cut_both {B = GetRspMessage} rsp_header gm.pending_key gm.bytes 2
        (λ k d. ok (record { code = msg_get_rsp; pending_key = k; bytes = d })) refl (omega arith),
  )

-- If the expiry is a 64-bit word and the key has fewer than 65526 bytes, `PutMessage.DeSerialize` of the
-- wire message that `Serialize` builds is the message, with the code of a put.
pub put-round_trip :
    (pm : PutMessage)
    → pm.expiry < 2 ^ 64
    → length pm.key < 65526
    → (serialize_put pm >>= deserialize_put) ≡ ok (record pm { code = msg_put })
put-round_trip pm he hk = rw (serialize_put-layout pm) (deserialize_put-layout pm he hk)

-- If the expiry is a 64-bit word and the key has from 65526 to 65535 bytes, `PutMessage.Serialize` builds a
-- wire message on which `DeSerialize` panics.
pub put_long_key :
    (pm : PutMessage)
    → pm.expiry < 2 ^ 64
    → 65526 ≤ length pm.key
    → length pm.key < 2 ^ 16
    → (msg : NodeWireMessage) × (serialize_put pm ≡ ok msg) × (deserialize_put msg ≡ panic)
put_long_key pm he lo hi = (put_wire pm, serialize_put-layout pm, deserialize_put_long pm he lo hi)

-- If the pending key has fewer than 65534 bytes, `GetRspMessage.DeSerialize` of the wire message that
-- `Serialize` builds is the message, with the code of a get response.
pub get_rsp-round_trip :
    (gm : GetRspMessage)
    → length gm.pending_key < 65534
    → (serialize_get_rsp gm >>= deserialize_get_rsp) ≡ ok (record gm { code = msg_get_rsp })
get_rsp-round_trip gm h = rw (serialize_get_rsp-layout gm) (deserialize_get_rsp-layout gm h)
