-- ===== src/Expresslane/Receive.antt =====
-- lightway-expresslane/src/session.rs: what receiving does to the session.
use lightway.Base.{
  ℕ, ◌≡◌, refl, ap, sym, ◌∙◌, subst, inl, inr, Bool, true, false, not, List, [], ◌∷◌, Option, none,
  some, ltb, Bool-cases, length, arith,
}
use lightway.Versions.{ExpresslaneVersion}
use lightway.Wire.BigEndian.{BigEndian}
use lightway.Replay.{ReplayWindow, would_reject, commit}
use lightway.Replay.History.{
  elem, admissible, Tracks, would_reject-admissible, commit_accepts, commit_refuses,
  elem-not_admissible, commit-refused,
}
use lightway.Expresslane.Aead.{ExpresslaneKey, ExpresslaneAead, ExpresslaneResult, ok, err}
use lightway.Expresslane.Session.{
  ExpresslaneSession, Keyed, set_version, promote, promote_self_key, stage, install,
  update_next_self_key, update_peer_key, reserve_counter, accept, max_plaintext,
}
use lightway.Expresslane.Packets.{append_to_wire}
use lightway.Expresslane.Histories.{
  Call, step, run, call_set_version, call_update_next_self_key, call_update_peer_key,
  call_promote_self_key, call_reserve_counter, call_append_to_wire, call_try_from_wire,
  call_decrypt_into, try_from_wire-keeps, decrypt_into-keeps,
}

-- The window of a session tracks a history that has all of `kept`.
unfoldable pub Remembers : List ℕ → ReplayWindow → Type 0
Remembers kept w =
    (seen : List ℕ) × Tracks w seen × ((c : ℕ) → elem c kept ≡ true → elem c seen ≡ true)

module _ {A : Type 0} (s : ExpresslaneSession A) where
  pub accept-refused : (c : ℕ) → (accept s c).1 ≡ false → (accept s c).0 ≡ s
  unfolding accept
  accept-refused c h = elim (Bool-cases (commit s.replay c).1) [
    | inl fresh ↦ cc (rw fresh at h)
    | inr stale ↦
        let same : (commit s.replay c).0 ≡ s.replay = commit-refused s.replay c stale in
        rw stale (ap (λ w. record s { replay = w }) same)
  ]

  pub replay-accept : (c : ℕ) → (accept s c).0.replay ≡ (commit s.replay c).0
  unfolding accept
  replay-accept c = elim (Bool-cases (commit s.replay c).1) [
    | inl fresh ↦ rw fresh refl
    | inr stale ↦ rw stale refl
  ]

  pub accepted-accept : (c : ℕ) → (accept s c).1 ≡ (commit s.replay c).1
  unfolding accept
  accepted-accept c = elim (Bool-cases (commit s.replay c).1) [
    | inl fresh ↦ rw fresh refl
    | inr stale ↦ rw stale refl
  ]

  replay-set_version : (v : ExpresslaneVersion) → (set_version s v).0.replay ≡ s.replay
  unfolding set_version
  replay-set_version v = ground arith

  replay-promote : (o : Option (Keyed A)) → (promote s o).replay ≡ s.replay
  unfolding promote
  replay-promote none = refl
  replay-promote (some next) = refl

-- A commit keeps the history, and adds the counter that it accepts.
commit-Remembers :
    (kept : List ℕ) (w : ReplayWindow) (c : ℕ) → Remembers kept w → Remembers kept (commit w c).0
unfolding Remembers elem
commit-Remembers kept w c (seen, t, k) = elim (Bool-cases (admissible seen c)) [
  | inl fresh ↦ (
    c ∷ seen,
    (commit_accepts w seen c t fresh).1,
    λ d e. let old : elem d seen ≡ true = k d e in ground arith,
  )
  | inr stale ↦ (
    seen,
    subst (λ v. Tracks v seen) (sym (ap (λ r. r.0) (commit_refuses w seen c t stale))) t,
    k,
  )
]

pub commit-Remembers_new :
    (kept : List ℕ) (w : ReplayWindow) (c : ℕ)
    → Remembers kept w
    → (commit w c).1 ≡ true
    → Remembers (c ∷ kept) (commit w c).0
unfolding Remembers elem
commit-Remembers_new kept w c (seen, t, k) h = elim (Bool-cases (admissible seen c)) [
  | inl fresh ↦ (c ∷ seen, (commit_accepts w seen c t fresh).1, λ d e. ground (arith, k d))
  | inr stale ↦ cc (h, commit_refuses w seen c t stale)
]

pub would_reject-Remembers :
    (kept : List ℕ) (w : ReplayWindow) (c : ℕ)
    → Remembers kept w
    → elem c kept ≡ true
    → would_reject w c ≡ true
unfolding Remembers
would_reject-Remembers kept w c (seen, t, k) h =
    would_reject-admissible w seen c t ∙ ap not (elem-not_admissible seen c (k c h))

module _ {A : Type 0} ⦃crypto : ExpresslaneAead A⦄ (s : ExpresslaneSession A) where
  replay-stage :
      (key : ExpresslaneKey) (r : ExpresslaneResult A) → (stage s key r).0.replay ≡ s.replay
  unfolding stage
  replay-stage key (err e) = refl
  replay-stage key (ok aead) = refl

  replay-install :
      (key : ExpresslaneKey) (r : ExpresslaneResult A) → (install s key r).0.replay ≡ s.replay
  unfolding install
  replay-install key (err e) = refl
  replay-install key (ok aead) = refl

module _ {A : Type 0} ⦃crypto : ExpresslaneAead A⦄ ⦃be : BigEndian⦄ where
  replay-append_to_wire :
      (s : ExpresslaneSession A) (buf session_id plaintext iv : List ℕ) (is_encoded : Bool)
      → (append_to_wire s buf session_id plaintext iv is_encoded).0.replay ≡ s.replay
  unfolding append_to_wire reserve_counter
  replay-append_to_wire s buf session_id plaintext iv is_encoded =
      elim (Bool-cases (ltb max_plaintext (length plaintext))) [
        | inl large ↦ rw large refl
        | inr fits ↦ rw fits refl
      ]

  accept-Remembers :
      (kept : List ℕ) (s : ExpresslaneSession A) (c : ℕ)
      → Remembers kept s.replay
      → Remembers kept (accept s c).0.replay
  accept-Remembers kept s c r =
      subst (Remembers kept) (sym (replay-accept s c)) (commit-Remembers kept s.replay c r)

  step-Remembers :
      (kept : List ℕ) (s : ExpresslaneSession A) (call : Call)
      → Remembers kept s.replay
      → Remembers kept (step s call).replay
  unfolding step update_next_self_key update_peer_key promote_self_key reserve_counter
  step-Remembers kept s (call_set_version v) r =
      subst (Remembers kept) (sym (replay-set_version s v)) r
  step-Remembers kept s (call_update_next_self_key key) r =
      subst (Remembers kept) (sym (replay-stage s key _)) r
  step-Remembers kept s (call_update_peer_key key) r =
      subst (Remembers kept) (sym (replay-install s key _)) r
  step-Remembers kept s call_promote_self_key r =
      subst (Remembers kept) (sym (replay-promote s s.next_self)) r
  step-Remembers kept s call_reserve_counter r = r
  step-Remembers kept s (call_append_to_wire session_id plaintext iv is_encoded) r =
      subst (Remembers kept) (sym (replay-append_to_wire s [] session_id plaintext iv is_encoded)) r
  step-Remembers kept s (call_try_from_wire buf session_id) r =
      try_from_wire-keeps (λ t. Remembers kept t.replay) s r (λ c. accept-Remembers kept s c r) buf
        session_id
  step-Remembers kept s (call_decrypt_into session_id wire_packet out) r =
      decrypt_into-keeps (λ t. Remembers kept t.replay) s r (λ c. accept-Remembers kept s c r)
        session_id wire_packet out

  pub run-Remembers :
      (kept : List ℕ) (s : ExpresslaneSession A) (calls : List Call)
      → Remembers kept s.replay
      → Remembers kept (run s calls).replay
  unfolding run
  run-Remembers kept s [] r = r
  run-Remembers kept s (call ∷ calls) r =
      run-Remembers kept (step s call) calls (step-Remembers kept s call r)
