-- ===== src/Comms/Sending.antt =====
-- What `SendData` of comms/connection.go has put on the wire.
use clustered_big_cache.Prelude.{
  ℕ, ◌≤◌, ◌<◌, ◌≡◌, ◌≢◌, refl, Bool-cases, sym, ap, ◌∙◌, inl, inr, true, List, [], ◌∷◌, ◌++◌, arith,
  length, take, drop, take-append-drop, append_assoc, append-nil, length-drop, All,
}
use clustered_big_cache.Prelude.Outcome.{ok, ok-injective}
use clustered_big_cache.Comms.{
  Connection, WriteResult, wrote, end_of_file, broken, CommsError, no_error, send_loop, send_data,
}

-- The socket took `front` of the bytes, and all of them if the call answers no error.
pub record IsSent (c c' : Connection) (bytes : List ℕ) (error : CommsError) : Type 0 where
  pub front : List ℕ
  pub back : List ℕ
  pub parts : front ++ back ≡ bytes
  pub sent : c'.sent ≡ c.sent ++ front
  pub whole : error ≡ no_error → back ≡ []

nothing_sent :
    (c c' : Connection) (bytes : List ℕ) (error : CommsError)
    → c'.sent ≡ c.sent
    → error ≢ no_error
    → IsSent c c' bytes error
nothing_sent c c' bytes error same bad = record {
  front = [];
  back = bytes;
  parts = refl;
  sent = same ∙ sym (append-nil c.sent);
  whole = λ e. absurd (bad e);
}

-- A write that fails after it has taken some bytes.
failed_sent :
    (c c' : Connection) (bytes : List ℕ) (n : ℕ) (error : CommsError)
    → c'.sent ≡ c.sent ++ take n bytes
    → error ≢ no_error
    → IsSent c c' bytes error
failed_sent c c' bytes n error same bad = record {
  front = take n bytes;
  back = drop n bytes;
  parts = take-append-drop n bytes;
  sent = same;
  whole = λ e. absurd (bad e);
}

send_loop-IsSent :
    (results : List WriteResult) (c c' : Connection) (bytes : List ℕ) (error : CommsError)
    → send_loop results c bytes ≡ ok (error, c')
    → IsSent c c' bytes error
unfolding send_loop
send_loop-IsSent results c c' [] error e = record {
  front = [];
  back = [];
  parts = refl;
  sent = ap (λ p. p.1.sent) (sym (ok-injective e)) ∙ sym (append-nil c.sent);
  whole = λ _. refl;
}
send_loop-IsSent [] c c' (b ∷ left) error e = ground arith
send_loop-IsSent (wrote n ∷ results) c c' (b ∷ left) error e =
    let ih =
      send_loop-IsSent results (record c { sent = c.sent ++ take n (b ∷ left) }) c'
        (drop n (b ∷ left)) error e in
    record {
      front = take n (b ∷ left) ++ ih.front;
      back = ih.back;
      parts =
          append_assoc (take n (b ∷ left)) ih.front ih.back
          ∙ (ap (λ l. take n (b ∷ left) ++ l) ih.parts ∙ take-append-drop n (b ∷ left));
      sent = ih.sent ∙ append_assoc c.sent (take n (b ∷ left)) ih.front;
      whole = ih.whole;
    }
send_loop-IsSent (end_of_file n ∷ results) c c' (b ∷ left) error e =
    failed_sent c c' (b ∷ left) n error (ground arith) (λ g. ground arith)
send_loop-IsSent (broken n ∷ results) c c' (b ∷ left) error e =
    failed_sent c c' (b ∷ left) n error (ground arith) (λ g. ground arith)

-- Whatever the writes of the socket take, also those that fail, `SendData` that has ended has put a front part of
-- the data on the wire, in order and once; if it answers no error, all of the data.
pub send_data-IsSent :
    (results : List WriteResult) (c c' : Connection) (bytes : List ℕ) (error : CommsError)
    → send_data results c bytes ≡ ok (error, c')
    → IsSent c c' bytes error
unfolding send_data
send_data-IsSent results c c' bytes error e = elim (Bool-cases c.usable) [
  | inl on ↦ send_loop-IsSent results c c' bytes error (ground arith)
  | inr off ↦ nothing_sent c c' bytes error (ground arith) (λ g. ground arith)
]

-- A write that takes at least one byte, with no error.
abbrev pub Progress : WriteResult → Type 0
Progress (wrote n) = 0 < n
Progress (end_of_file n) = ⊥
Progress (broken n) = ⊥

send_loop_ends :
    (results : List WriteResult) (c : Connection) (bytes : List ℕ)
    → All Progress results
    → length bytes ≤ length results
    → (c' : Connection) × (send_loop results c bytes ≡ ok (no_error, c'))
unfolding send_loop
send_loop_ends results c [] p h = (c, refl)
send_loop_ends [] c (b ∷ left) p h = absurd (omega arith)
send_loop_ends (wrote n ∷ results) c (b ∷ left) p h =
    send_loop_ends results (record c { sent = c.sent ++ take n (b ∷ left) }) (drop n (b ∷ left)) p.1
      (omega (arith, length-drop n (b ∷ left), p.0))
send_loop_ends (end_of_file n ∷ results) c (b ∷ left) p h = absurd p.0
send_loop_ends (broken n ∷ results) c (b ∷ left) p h = absurd p.0

-- `SendData` on a usable connection ends, with no error and all of the data on the wire, if each write of the
-- socket takes at least one byte with no error, and there are as many writes to come as there are bytes.
pub send_data_ends :
    (results : List WriteResult) (c : Connection) (bytes : List ℕ)
    → c.usable ≡ true
    → All Progress results
    → length bytes ≤ length results
    → (c' : Connection) × (send_data results c bytes ≡ ok (no_error, c'))
      × (c'.sent ≡ c.sent ++ bytes)
unfolding send_data
send_data_ends results c bytes on p h =
    let (c', done) = send_loop_ends results c bytes p h in
    let s = send_loop-IsSent results c c' bytes no_error done in
    let all : s.front ≡ bytes =
      sym (append-nil s.front) ∙ (ap (λ l. s.front ++ l) (sym (s.whole refl)) ∙ s.parts) in
    (c', ground (arith, on, done), s.sent ∙ ap (λ l. c.sent ++ l) all)
