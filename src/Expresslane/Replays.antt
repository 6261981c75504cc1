-- ===== src/Expresslane/Replays.antt =====
-- lightway-expresslane/src/session.rs: frames that are refused, and frames that come again.
use lightway.Base.{
  ℕ, ◌≡◌, refl, ap, sym, ◌∙◌, subst, inl, inr, Bool, true, List, [], ◌∷◌, Bool-cases, arith,
}
use lightway.Versions.{ExpresslaneVersion}
use lightway.Wire.BigEndian.{BigEndian}
use lightway.Replay.History.{elem, default-Tracks}
use lightway.Expresslane.Aead.{
  ExpresslaneAead, ExpresslaneError, ExpresslaneResult, ok, err, replayed,
}
use lightway.Expresslane.Session.{ExpresslaneSession, FrameHeader, new, accept, checked_header}
use lightway.Expresslane.Packets.{try_from_wire, authenticate, deliver, receive}
use lightway.Expresslane.Histories.{Call, run}
use lightway.Expresslane.Receive.{
  Remembers, commit-Remembers_new, would_reject-Remembers, accepted-accept, replay-accept,
  run-Remembers, accept-refused,
}

module _ {A : Type 0} ⦃crypto : ExpresslaneAead A⦄ ⦃be : BigEndian⦄ where
  deliver-err :
      (s : ExpresslaneSession A) (buf : List ℕ) (h : FrameHeader) (r : ExpresslaneResult (List ℕ))
      (e : ExpresslaneError)
      → (deliver s buf h r).2 ≡ err e
      → deliver s buf h r ≡ (s, buf, err e)
  unfolding deliver
  deliver-err s buf h (err d) e q = ap (λ x. (s, buf, x)) q
  deliver-err s buf h (ok plaintext) e q = elim (Bool-cases (accept s h.counter).1) [
    | inl fresh ↦ cc (rw fresh at q)
    | inr stale ↦
        let same : (accept s h.counter).0 ≡ s = accept-refused s h.counter stale in
        let refused = rw stale at q in rw stale (cc (same, refused))
  ]

  receive-err :
      (s : ExpresslaneSession A) (buf session_id : List ℕ) (r : ExpresslaneResult FrameHeader)
      (e : ExpresslaneError)
      → (receive s buf session_id r).2 ≡ err e
      → receive s buf session_id r ≡ (s, buf, err e)
  unfolding receive
  receive-err s buf session_id (err d) e q = ap (λ x. (s, buf, x)) q
  receive-err s buf session_id (ok h) e q = deliver-err s buf h _ e q

  -- A frame that is refused, for whatever reason, leaves the session and the buffer as they were.
  pub try_from_wire-err :
      (s : ExpresslaneSession A) (buf session_id : List ℕ) (e : ExpresslaneError)
      → (try_from_wire s buf session_id).2 ≡ err e
      → try_from_wire s buf session_id ≡ (s, buf, err e)
  unfolding try_from_wire
  try_from_wire-err s buf session_id e q = receive-err s buf session_id (checked_header buf) e q

  -- A frame that is delivered has had its counter committed.
  deliver-commits :
      (s : ExpresslaneSession A) (buf : List ℕ) (h : FrameHeader) (r : ExpresslaneResult (List ℕ))
      (d : List ℕ × Bool) (kept : List ℕ)
      → Remembers kept s.replay
      → (deliver s buf h r).2 ≡ ok d
      → Remembers (h.counter ∷ kept) (deliver s buf h r).0.replay
  unfolding deliver
  deliver-commits s buf h (err e) d kept m q = cc q
  deliver-commits s buf h (ok plaintext) d kept m q = elim (Bool-cases (accept s h.counter).1) [
    | inl fresh ↦
        rw (fresh, replay-accept s h.counter)
          (commit-Remembers_new kept s.replay h.counter m
            (sym (accepted-accept s h.counter) ∙ fresh))
    | inr stale ↦ cc (rw stale at q)
  ]

  receive_again :
      (s : ExpresslaneSession A) (buf session_id : List ℕ) (h : FrameHeader) (kept : List ℕ)
      → Remembers kept s.replay
      → elem h.counter kept ≡ true
      → receive s buf session_id (ok h) ≡ (s, buf, err replayed)
  unfolding receive authenticate deliver
  receive_again s buf session_id h kept m k =
      rw (would_reject-Remembers kept s.replay h.counter m k) refl

  try_from_wire-commits :
      (s : ExpresslaneSession A) (buf session_id : List ℕ) (h : FrameHeader) (d : List ℕ × Bool)
      → Remembers [] s.replay
      → checked_header buf ≡ ok h
      → (try_from_wire s buf session_id).2 ≡ ok d
      → Remembers (h.counter ∷ []) (try_from_wire s buf session_id).0.replay
  unfolding try_from_wire receive
  try_from_wire-commits s buf session_id h d m first q =
      let at_header = ap (receive s buf session_id) first in
      subst (λ r. Remembers (h.counter ∷ []) r.0.replay) (sym at_header)
        (deliver-commits s buf h _ d [] m (sym (ap (λ r. r.2) at_header) ∙ q))

  try_from_wire-again :
      (s : ExpresslaneSession A) (buf session_id : List ℕ) (h : FrameHeader) (kept : List ℕ)
      → Remembers kept s.replay
      → elem h.counter kept ≡ true
      → checked_header buf ≡ ok h
      → try_from_wire s buf session_id ≡ (s, buf, err replayed)
  unfolding try_from_wire
  try_from_wire-again s buf session_id h kept m k second =
      ap (receive s buf session_id) second ∙ receive_again s buf session_id h kept m k

module _ (A : Type 0) ⦃crypto : ExpresslaneAead A⦄ ⦃be : BigEndian⦄ where
  run_new-Remembers :
      (v : ExpresslaneVersion) (calls : List Call) → Remembers [] (run (new {A = A} v) calls).replay
  unfolding Remembers new
  run_new-Remembers v calls = run-Remembers [] (new {A = A} v) calls ([], default-Tracks, λ c e. e)

  -- Whatever has been called on a new session, once it has delivered a frame, and whatever is called
  -- after that, keys and version changed or not, a whole frame with the same counter is answered as
  -- replayed, and leaves the session and its buffer as they were.
  pub try_from_wire_once :
      (v : ExpresslaneVersion) (before between : List Call) (buf again sid sid' : List ℕ)
      (h h' : FrameHeader) (d : List ℕ × Bool)
      → (try_from_wire (run (new {A = A} v) before) buf sid).2 ≡ ok d
      → checked_header buf ≡ ok h
      → checked_header again ≡ ok h'
      → h.counter ≡ h'.counter
      → try_from_wire
          (run (try_from_wire (run (new {A = A} v) before) buf sid).0 between)
          again
          sid'
        ≡ (run (try_from_wire (run (new {A = A} v) before) buf sid).0 between, again, err replayed)
  unfolding elem
  try_from_wire_once v before between buf again sid sid' h h' d delivered first second same =
      let s = run (new {A = A} v) before in
      let seen = try_from_wire-commits s buf sid h d (run_new-Remembers v before) first delivered in
      let kept = run-Remembers (h.counter ∷ []) (try_from_wire s buf sid).0 between seen in
      let known : elem h'.counter (h.counter ∷ []) ≡ true = ground (arith, same) in
      try_from_wire-again (run (try_from_wire s buf sid).0 between) again sid' h' _ kept known
        second
