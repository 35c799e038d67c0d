-- ===== src/Cluster/Service/Lookup.antt =====
-- A lookup between two nodes, over `handleGetRequest` of Cluster/remoteNode.go.
use clustered_big_cache.Prelude.{
  ℕ, ◌<◌, ◌≡◌, ap, true, arith, List, [], ◌∷◌, ◌++◌, some, length, get_or-set_self,
}
use clustered_big_cache.Prelude.Outcome.{ok, Reply, value, ◌>>=◌}
use clustered_big_cache.Shard.{Deps}
use clustered_big_cache.BigCache
use clustered_big_cache.BigCache.{BigCache}
use clustered_big_cache.Message.{
  Json, get_rsp, GetReqMessage, msg_get_req, serialize_get_req, deserialize_get_req,
  serialize_get_rsp,
}
use clustered_big_cache.Message.Text.{is_text, ReadsRequests}
use clustered_big_cache.Cluster.{Node, nil_remote, remote, put_remote, request}
use clustered_big_cache.Cluster.Handlers.{
  get_data, data_of, handle_get_request, handle_get_response,
}
use clustered_big_cache.Cluster.Service.{get_wait, get_end}
use clustered_big_cache.Cluster.Service.Gathering.{
  IsUp, IsAsking, send_up, request_message, response_message, pending_key, get_end-waiting,
}

module _ (D : Deps) (J : Json) where
  -- The answering node once the request is handled.
  abbrev answering : Node D → (r : ℕ) → BigCache D → GetReqMessage → Reply (List ℕ) → Node D
  answering n r c m reply =
      put_remote D (record n { cache = some c }) r
        (record (remote D n r) {
          outbound =
              (remote D n r).outbound
              ++ (get_rsp (record { code = 0; pending_key = m.pending_key; bytes = data_of reply })
                  ∷ []);
        })

  received :
      (m : GetReqMessage)
      → ReadsRequests J.get_req
      → is_text m.key ≡ true
      → is_text m.pending_key ≡ true
      → deserialize_get_req J (serialize_get_req J m) ≡ record m { code = msg_get_req }
  unfolding deserialize_get_req serialize_get_req
  received m law text text' =
      law (record m { code = msg_get_req }) (record { code = 0; key = []; pending_key = [] })
        (omega arith) text text'

  handle_get_request_lem :
      (n : Node D) (r : ℕ) (c c' : BigCache D) (m : GetReqMessage) (reply : Reply (List ℕ))
      → ReadsRequests J.get_req
      → is_text m.key ≡ true
      → is_text m.pending_key ≡ true
      → IsUp (remote D n r)
      → n.cache ≡ some c
      → BigCache.get D c m.key ≡ ok (reply, c')
      → handle_get_request D J n r (serialize_get_req J m) ≡ ok (answering n r c' m reply)
  unfolding handle_get_request
  handle_get_request_lem n r c c' m reply law text text' u there e = rw (
    there,
    received m law text text',
    e,
    send_up (remote D n r)
        (get_rsp (record { code = 0; pending_key = m.pending_key; bytes = data_of reply })) u,
  )

  -- A lookup between two nodes, where `json` reads back the requests that it writes, of texts; the key, and the key
  -- with the random string of the request, are text, that is, UTF-8. The node `a` sends the
  -- request `q` to the node `b`, whose cache has data for the key; `b` queues one response with the data for
  -- `a`; and when `a`, whose `Get` waits by then, has handled it, `Get` answers the data.
  pub get_from_peer :
      (a b : Node D) (p q r : ℕ) (pending : List (List ℕ × ℕ)) (c c' : BigCache D) (bytes : List ℕ)
      → ReadsRequests J.get_req
      → is_text (request D a q).key ≡ true
      → is_text (pending_key (request D a q)) ≡ true
      → IsAsking D a p q pending
      → r < length b.remotes
      → IsUp (remote D b r)
      → b.cache ≡ some c
      → BigCache.get D c (request D a q).key ≡ ok (value bytes, c')
      → 0 < length bytes
      → (a₁ : Node D) × (b₁ : Node D) × (a₂ : Node D) × (get_data D a p q ≡ ok a₁)
        × (handle_get_request D J b r (serialize_get_req J (request_message (request D a q)))
            ≡ ok b₁)
        × ((remote D b₁ r).outbound
            ≡ (remote D b r).outbound ++ (get_rsp (response_message (request D a q) bytes) ∷ []))
        × ((serialize_get_rsp (response_message (request D a q) bytes) >>= λ wire.
              handle_get_response D (get_wait D a₁ q) p wire)
            ≡ ok a₂)
        × ((get_end D a₂ q).0 ≡ value bytes)
  get_from_peer a b p q r pending c c' bytes law text text' asks h u there e full =
      let m = request_message (request D a q) in
      let (a₁, a₂, sent, back, answer) = get_end-waiting D a p q pending bytes asks full in
      (
        a₁,
        answering b r c' m (value bytes),
        a₂,
        sent,
        handle_get_request_lem b r c c' m (value bytes) law text text' u there e,
        ap (λ v. v.outbound) (get_or-set_self b.remotes r _ nil_remote h),
        back,
        answer,
      )
