-- ===== src/Cluster/Service/Gathering.antt =====
-- A lookup in another node: `getData`, `handleGetRequest` and `handleGetResponse` of Cluster/remoteNode.go,
-- and `Get` of Cluster/clusteredBigCache.go.
use clustered_big_cache.Prelude.{
  ℕ, ◌<◌, ◌≡◌, refl, none, ap, sym, subst, ◌∙◌, true, false, List, [], ◌∷◌, ◌++◌, some, length, ltb,
  lt→ltb, le→ltb, if◌then◌else◌, arith, length-set, get_or-set_self,
}
use clustered_big_cache.Prelude.Keys.{key_eq_self}
use clustered_big_cache.Prelude.Outcome.{
  Outcome, ok, panic, value, failure, timed_out, bind_assoc, ◌>>=◌,
}
use clustered_big_cache.Shard.{Deps}
use clustered_big_cache.Message.{
  NodeMessage, get_req, GetReqMessage, GetRspMessage, msg_get_rsp, serialize_get_rsp,
  deserialize_get_rsp,
}
use clustered_big_cache.Message.RoundTrip.{get_rsp-round_trip}
use clustered_big_cache.SliceList.{load, store, delete}
use clustered_big_cache.SliceList.Unique.{IsUnique, load-store_any, load-delete_any, store-IsUnique}
use clustered_big_cache.Cluster.{
  RemoteNode, GetRequest, Node, nil_remote, nil_request, remote, put_remote, request, put_request,
  chan_size,
}
use clustered_big_cache.Cluster.Peers.{is_disconnected, send_message}
use clustered_big_cache.Cluster.Handlers.{get_data, deliver, handle_get_response}
use clustered_big_cache.Cluster.Service.{get_wait, get_end}

-- A remote node that is up and has room for a message.
pub record IsUp (v : RemoteNode) : Type 0 where
  pub is_up : is_disconnected v.receiver.state ≡ false
  pub is_open : v.closed ≡ false
  pub room : length v.outbound < chan_size

pub send_up :
    (v : RemoteNode) (msg : NodeMessage)
    → IsUp v
    → send_message v msg ≡ ok (record v { outbound = v.outbound ++ (msg ∷ []) })
unfolding send_message
send_up v msg u = rw (u.is_up, u.is_open, lt→ltb (length v.outbound) chan_size u.room)

-- The messages of a request
abbrev pub pending_key : GetRequest → List ℕ
pending_key g = g.key ++ g.rand_str

abbrev pub request_message : GetRequest → GetReqMessage
request_message g = record { code = 0; key = g.key; pending_key = pending_key g }

abbrev pub response_message : GetRequest → List ℕ → GetRspMessage
response_message g bytes = record { code = 0; pending_key = pending_key g; bytes = bytes }

deliver_waiting :
    (g : GetRequest) (bytes : List ℕ)
    → g.done ≡ false
    → (deliver (record g { waiting = true }) bytes).answer ≡ some bytes
deliver_waiting g bytes h = rw h

deliver_early : (g : GetRequest) (bytes : List ℕ) → g.waiting ≡ false → deliver g bytes ≡ g
deliver_early g bytes h = rw h

module _ (D : Deps) where
  -- The asking node and its remote node once the request is sent.
  abbrev pub asked : Node D → (p q : ℕ) → List (List ℕ × ℕ) → Node D
  asked n p q pending =
      let v = remote D n p in
      let g = request D n q in
      put_remote D n p (record v {
        pending_get = some (store pending (pending_key g) q);
        outbound = v.outbound ++ (get_req (request_message g) ∷ []);
      })

  get_data_lem :
      (n : Node D) (p q : ℕ) (pending : List (List ℕ × ℕ))
      → IsUp (remote D n p)
      → (remote D n p).pending_get ≡ some pending
      → get_data D n p q ≡ ok (asked n p q pending)
  unfolding get_data
  get_data_lem n p q pending u e =
      let v = record (remote D n p) {
        pending_get = some (store pending (pending_key (request D n q)) q);
      } in
      rw (
        u.is_up,
        e,
        send_up v (get_req (request_message (request D n q)))
            (record { is_up = u.is_up; is_open = u.is_open; room = u.room }),
      )

  -- The asking node once the response is handled.
  abbrev pub responded : Node D → (p q : ℕ) → List (List ℕ × ℕ) → GetRspMessage → Node D
  responded n p q pending m =
      put_request D
        (put_remote D n p
          (record (remote D n p) { pending_get = some (delete pending m.pending_key) }))
        q (deliver (request D n q) m.bytes)

  response_lem :
      (n : Node D) (p q : ℕ) (pending : List (List ℕ × ℕ)) (m : GetRspMessage)
      → (remote D n p).pending_get ≡ some pending
      → load pending m.pending_key ≡ some q
      → length m.pending_key < 65534
      → 0 < length m.bytes
      → (serialize_get_rsp m >>= λ wire. handle_get_response D n p wire)
        ≡ ok (responded n p q pending m)
  unfolding handle_get_response
  response_lem n p q pending m e there short full =
      let body : GetRspMessage → Outcome (Node D) = λ msg. elim (remote D n p).pending_get [
        | none ↦ panic
        | some pending ↦ elim (load pending msg.pending_key) [
          | none ↦ ok n
          | some q ↦
              if ltb (length msg.bytes) 1
              then ok (
                  put_remote D n p
                    (record (remote D n p) { pending_get = some (delete pending msg.pending_key) }))
              else ok (responded n p q pending msg)
        ]
      ] in
      let handled : body (record m { code = msg_get_rsp }) ≡ ok (responded n p q pending m) =
        rw (e, there, le→ltb (length m.bytes) 1 (omega arith)) in
      bind_assoc (serialize_get_rsp m) deserialize_get_rsp body
      ∙ (ap (λ o. o >>= body) (get_rsp-round_trip m short) ∙ handled)

  asked_pending :
      (n : Node D) (p q : ℕ) (pending : List (List ℕ × ℕ))
      → p < length n.remotes
      → (remote D (asked n p q pending) p).pending_get
        ≡ some (store pending (pending_key (request D n q)) q)
  asked_pending n p q pending h =
      ap (λ v. v.pending_get) (get_or-set_self n.remotes p _ nil_remote h)

  length-asked :
      (n : Node D) (p q : ℕ) (pending : List (List ℕ × ℕ))
      → length (asked n p q pending).remotes ≡ length n.remotes
  length-asked n p q pending = length-set n.remotes p _

  responded_pending :
      (n : Node D) (p q : ℕ) (pending : List (List ℕ × ℕ)) (m : GetRspMessage)
      → p < length n.remotes
      → (remote D (responded n p q pending m) p).pending_get ≡ some (delete pending m.pending_key)
  responded_pending n p q pending m h =
      ap (λ v. v.pending_get) (get_or-set_self n.remotes p _ nil_remote h)

  pending_there :
      (pending : List (List ℕ × ℕ)) (g : GetRequest) (q : ℕ)
      → load (store pending (pending_key g) q) (pending_key g) ≡ some q
  pending_there pending g q =
      load-store_any pending (pending_key g) q (pending_key g) ∙ rw (key_eq_self (pending_key g))

  answer_lem :
      (n : Node D) (p q : ℕ) (pending : List (List ℕ × ℕ)) (m : GetRspMessage)
      → q < length n.requests
      → request D (responded n p q pending m) q ≡ deliver (request D n q) m.bytes
  answer_lem n p q pending m h =
      get_or-set_self n.requests q (deliver (request D n q) m.bytes) nil_request h

  end_answered :
      (n : Node D) (q : ℕ) {bytes : List ℕ}
      → (request D n q).answer ≡ some bytes
      → (get_end D n q).0 ≡ value bytes
  unfolding get_end
  end_answered n q e = rw (e, get_end)

  end_timed_out :
      (n : Node D) (q : ℕ) → (request D n q).answer ≡ none → (get_end D n q).0 ≡ failure timed_out
  unfolding get_end
  end_timed_out n q e = rw (e, get_end)

  -- Where the request `q` waits for its answer or not, is not done and has no answer yet, the remote node `p`
  -- is up, and the response has the pending key of the request.
  pub record IsAsking (n : Node D) (p q : ℕ) (pending : List (List ℕ × ℕ)) : Type 0 where
    pub has_remote : p < length n.remotes
    pub has_request : q < length n.requests
    pub is_up : IsUp (remote D n p)
    pub has_pending : (remote D n p).pending_get ≡ some pending
    pub not_done : (request D n q).done ≡ false
    pub unanswered : (request D n q).answer ≡ none
    pub not_waiting : (request D n q).waiting ≡ false
    pub short : length (pending_key (request D n q)) < 65534

  -- A request that `getData` has sent to a peer, and whose wait then begins, gets the answer of the peer: if
  -- the response has data, `Get` answers the data.
  pub get_end-waiting :
      (n : Node D) (p q : ℕ) (pending : List (List ℕ × ℕ)) (bytes : List ℕ)
      → IsAsking n p q pending
      → 0 < length bytes
      → (n₁ : Node D) × (n₂ : Node D) × (get_data D n p q ≡ ok n₁)
        × ((serialize_get_rsp (response_message (request D n q) bytes) >>= λ wire.
              handle_get_response D (get_wait D n₁ q) p wire)
            ≡ ok n₂)
        × ((get_end D n₂ q).0 ≡ value bytes)
  get_end-waiting n p q pending bytes a full =
      let g = request D n q in
      let n₁ = asked n p q pending in
      let n₂ = get_wait D n₁ q in
      let pending₁ = store pending (pending_key g) q in
      let m = response_message g bytes in
      let in_wait : q < length n₂.requests =
        omega (arith, a.has_request, length-set n.requests q (record g { waiting = true })) in
      (
        n₁,
        responded n₂ p q pending₁ m,
        get_data_lem n p q pending a.is_up a.has_pending,
        response_lem n₂ p q pending₁ m (asked_pending n p q pending a.has_remote)
            (pending_there pending g q) a.short full,
        end_answered (responded n₂ p q pending₁ m) q (
            ap (λ h. h.answer) (answer_lem n₂ p q pending₁ m in_wait)
            ∙ (ap (λ h. (deliver h bytes).answer)
                  (get_or-set_self n.requests q (record g { waiting = true }) nil_request
                    a.has_request)
                ∙ deliver_waiting g bytes a.not_done)),
      )

  -- A response with data to a request that `getData` has sent, where it is handled before `Get` has begun its wait,
  -- is lost, since the channel has no buffer: if each pending key was there once, that of the request is not pending
  -- any more, so that a further response would be passed over, and `Get` times out.
  pub get_end-early :
      (n : Node D) (p q : ℕ) (pending : List (List ℕ × ℕ)) (bytes : List ℕ)
      → IsAsking n p q pending
      → IsUnique pending
      → 0 < length bytes
      → (n₁ : Node D) × (n₂ : Node D) × (pending' : List (List ℕ × ℕ)) × (get_data D n p q ≡ ok n₁)
        × ((serialize_get_rsp (response_message (request D n q) bytes) >>= λ wire.
              handle_get_response D n₁ p wire)
            ≡ ok n₂)
        × ((remote D n₂ p).pending_get ≡ some pending')
        × (load pending' (pending_key (request D n q)) ≡ none)
        × ((get_end D (get_wait D n₂ q) q).0 ≡ failure timed_out)
  get_end-early n p q pending bytes a unique full =
      let g = request D n q in
      let n₁ = asked n p q pending in
      let pending₁ = store pending (pending_key g) q in
      let m = response_message g bytes in
      let n₂ = responded n₁ p q pending₁ m in
      (
        n₁,
        n₂,
        delete pending₁ (pending_key g),
        get_data_lem n p q pending a.is_up a.has_pending,
        response_lem n₁ p q pending₁ m (asked_pending n p q pending a.has_remote)
            (pending_there pending g q) a.short full,
        responded_pending n₁ p q pending₁ m
            (subst (λ k. p < k) (sym (length-asked n p q pending)) a.has_remote),
        load-delete_any pending₁ (pending_key g) (pending_key g)
              (store-IsUnique pending (pending_key g) q unique)
            ∙ rw (key_eq_self (pending_key g)) refl,
        end_timed_out (get_wait D n₂ q) q (
            ap (λ h. h.answer)
              (get_or-set_self n₂.requests q (record (request D n₂ q) { waiting = true })
                nil_request in_answer)
            ∙ (ap (λ h. h.answer)
                  (answer_lem n₁ p q pending₁ m a.has_request ∙ deliver_early g bytes a.not_waiting)
                ∙ a.unanswered)),
      )
    where
      in_answer :
          q
          < length
              (responded
                (asked n p q pending)
                p
                q
                (store pending (pending_key (request D n q)) q)
                (response_message (request D n q) bytes)).requests
      in_answer =
          omega (arith, a.has_request, length-set n.requests q (deliver (request D n q) bytes))
