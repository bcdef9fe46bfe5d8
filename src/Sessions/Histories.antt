-- ===== src/Sessions/Histories.antt =====
-- The sessions against the history of calls.
use obelisk_sfu.Prelude.{
  ℕ, String, Bool, false, List, [], ◌∷◌, Option, none, some, ◌==◌, ◌≡◌, ◌≤◌, ◌+◌, ◌∙◌, ap, sym,
  refl, inl, inr, arith, eq_iff, Option-cases, Bool-cases, All, if◌then◌else◌, leb, leb→le,
}
use obelisk_sfu.Map.{Map, get, set, delete}
use obelisk_sfu.Map.Laws.{Nodup, get-set, get-delete_ne, get-delete_self, Nodup-set, Nodup-delete}
use obelisk_sfu.Sessions.{
  session_ttl, StoredSession, AdminSessions, unexpired, save, load, issue, lookup, revoke,
}
use obelisk_sfu.Sessions.Expiry.{live, Nodup-unexpired, live-unexpired}

-- The calls, each with its time; `restarts` is a new start of the server from the file.
pub data Call : Type 0 where
  issues : ℕ → String → String → Call
  looks revokes : ℕ → Option String → Call
  restarts : ℕ → Call

abbrev pub time_of : Call → ℕ
time_of (issues at token pubkey) = at
time_of (looks at token) = at
time_of (revokes at token) = at
time_of (restarts at) = at

-- No call is later than the given time; and the calls, latest first, are in order.
abbrev pub IsBefore : ℕ → List Call → Type 0
IsBefore now = All (λ c. time_of c ≤ now)

abbrev pub IsOrdered : List Call → Type 0
IsOrdered [] = Unit {0}
IsOrdered (c ∷ older) = IsBefore (time_of c) older × IsOrdered older

abbrev pub is_token : Option String → String → Bool
is_token none token = false
is_token (some t) token = t == token

-- Whose session a token is at a time: that of the last issue of the token, unless it was revoked
-- since or the time has run out.
pub expected : String → ℕ → List Call → Option String
expected token now [] = none
expected token now (issues at t pubkey ∷ older) =
    if t == token
    then (if leb (at + session_ttl) now then none else some pubkey)
    else expected token now older
expected token now (looks at t ∷ older) = expected token now older
expected token now (revokes at t ∷ older) =
    if is_token t token then none else expected token now older
expected token now (restarts at ∷ older) = expected token now older

module _ (hash : String → String)
    (no_collision : (s t : String) → (hash s == hash t) ≡ (s == t)) where
  pub call : Call → AdminSessions → AdminSessions
  call (issues at token pubkey) a = issue hash at token pubkey a
  call (looks at token) a = (lookup hash at token a).1
  call (revokes at token) a = revoke hash at token a
  call (restarts at) a = load at a.saved

  -- The state after a history of calls, latest first.
  pub replay : List Call → AdminSessions
  replay [] = load 0 []
  replay (c ∷ older) = call c (replay older)

  -- A table says of every token what the history calls for.
  abbrev IsTrue : ℕ → List Call → Map StoredSession → Type 0
  IsTrue now history m =
      Nodup m × ((t : String) → live now (get (hash t) m) ≡ expected t now history)

  abbrev IsSound : ℕ → List Call → AdminSessions → Type 0
  IsSound now history a = IsTrue now history a.sessions × IsTrue now history a.saved

  unexpired-IsTrue :
      (at now : ℕ) (history : List Call) (m : Map StoredSession)
      → at ≤ now
      → IsTrue now history m
      → IsTrue now history (unexpired at m)
  unexpired-IsTrue at now history m late (n, e) =
      (Nodup-unexpired at m n, λ t. live-unexpired at now (hash t) m late n ∙ e t)

  save-IsSound :
      (at now : ℕ) (history : List Call) (m : Map StoredSession)
      → at ≤ now
      → IsTrue now history m
      → IsSound now history (save at m)
  unfolding save
  save-IsSound at now history m late e =
      let kept = unexpired-IsTrue at now history m late e in (kept, kept)

  set-IsTrue :
      (at now : ℕ) (token pubkey : String) (older : List Call) (m : Map StoredSession)
      → IsTrue now older m
      → IsTrue now
          (issues at token pubkey ∷ older)
          (set (hash token) (record { pubkey = pubkey; expires_at = at + session_ttl }) m)
  unfolding expected
  set-IsTrue at now token pubkey older m (n, e) =
      let s : StoredSession = record { pubkey = pubkey; expires_at = at + session_ttl } in
      (
        Nodup-set (hash token) s m n,
        λ t. (ground (arith, get-set (hash token) (hash t) s m, no_collision token t, e t)),
      )

  get-delete_token :
      (token t : String) (m : Map StoredSession)
      → Nodup m
      → get (hash t) (delete (hash token) m) ≡ (if token == t then none else get (hash t) m)
  get-delete_token token t m n = elim (Bool-cases (token == t)) [
    | inr apart ↦ rw apart (get-delete_ne (hash token) (hash t) m (no_collision token t ∙ apart))
    | inl same ↦
        let eq : token ≡ t = ground (arith, eq_iff token t, same) in
        rw (same, eq) (get-delete_self (hash t) m n)
  ]

  revoke-IsTrue :
      (at now : ℕ) (token : String) (older : List Call) (m : Map StoredSession)
      → IsTrue now older m
      → IsTrue now (revokes at (some token) ∷ older) (delete (hash token) m)
  unfolding expected
  revoke-IsTrue at now token older m (n, e) =
      (Nodup-delete (hash token) m n, λ t. (ground (arith, get-delete_token token t m n, e t)))

  -- Dropping a session that has expired.
  drop-IsTrue :
      (at now : ℕ) (token : String) (s : StoredSession) (older : List Call) (m : Map StoredSession)
      → at ≤ now
      → get (hash token) m ≡ some s
      → s.expires_at ≤ at
      → IsTrue now older m
      → IsTrue now older (delete (hash token) m)
  drop-IsTrue at now token s older m late there over (n, e) = (
    Nodup-delete (hash token) m n,
    λ t.
        (ground
          (arith, get-delete_token token t m n, e t, e token, there, over, late, eq_iff token t)),
  )

  absent-IsTrue :
      (at now : ℕ) (token : String) (older : List Call) (m : Map StoredSession)
      → IsTrue now older m
      → expected token now older ≡ none
      → IsTrue now (revokes at (some token) ∷ older) m
  unfolding expected
  absent-IsTrue at now token older m (n, e) absent =
      (n, λ t. (ground (arith, e t, absent, eq_iff token t)))

  lookup-IsSound :
      (at now : ℕ) (token : Option String) (older : List Call) (a : AdminSessions)
      → at ≤ now
      → IsSound now older a
      → IsSound now older (lookup hash at token a).1
  unfolding lookup
  lookup-IsSound at now none older a late v = v
  lookup-IsSound at now (some token) older a late v =
      elim (Option-cases (get (hash token) a.sessions)) [
        | inl e ↦ rw (e, lookup) v
        | inr (s, e) ↦ elim (Bool-cases (leb s.expires_at at)) [
          | inr valid ↦ rw (e, lookup, valid) v
          | inl over ↦
              rw (e, lookup, over)
                (save-IsSound at now older _ late (
                  drop-IsTrue at now token s older a.sessions late e (leb→le s.expires_at at over)
                    v.0))
        ]
      ]

  revoke-IsSound :
      (at now : ℕ) (token : Option String) (older : List Call) (a : AdminSessions)
      → at ≤ now
      → IsSound now older a
      → IsSound now (revokes at token ∷ older) (revoke hash at token a)
  unfolding revoke expected
  revoke-IsSound at now none older a late v = v
  revoke-IsSound at now (some token) older a late v =
      elim (Option-cases (get (hash token) a.sessions)) [
        | inr (s, e) ↦ rw e (
            save-IsSound at now (revokes at (some token) ∷ older) _ late
              (revoke-IsTrue at now token older a.sessions v.0))
        | inl e ↦
            let absent : expected token now older ≡ none = sym (v.0.1 token) ∙ ap (live now) e in
            rw e (
              absent-IsTrue at now token older a.sessions v.0 absent,
              absent-IsTrue at now token older a.saved v.1 absent,
            )
      ]

  replay-IsSound :
      (now : ℕ) (history : List Call)
      → IsBefore now history
      → IsOrdered history
      → IsSound now history (replay history)
  unfolding replay call issue load expected
  replay-IsSound now [] before ordered = unfold get unexpired in ((tt, λ t. refl), (tt, λ t. refl))
  replay-IsSound now (issues at token pubkey ∷ older) before ordered =
      let v = replay-IsSound now older before.1 ordered.1 in
      save-IsSound at now (issues at token pubkey ∷ older) _ before.0
        (set-IsTrue at now token pubkey older _ v.0)
  replay-IsSound now (looks at token ∷ older) before ordered =
      lookup-IsSound at now token older _ before.0 (replay-IsSound now older before.1 ordered.1)
  replay-IsSound now (revokes at token ∷ older) before ordered =
      revoke-IsSound at now token older _ before.0 (replay-IsSound now older before.1 ordered.1)
  replay-IsSound now (restarts at ∷ older) before ordered =
      let v = replay-IsSound now older before.1 ordered.1 in
      (unexpired-IsTrue at now older _ before.0 v.1, v.1)

  -- If no two tokens have one hash and time does not go back, then after any history of issues,
  -- lookups, revocations and restarts from the file a lookup answers with the pubkey of the last
  -- issue of the token, and with none where there was no issue, the token was revoked since, or
  -- its time has run out.
  pub lookup-replay :
      (now : ℕ) (token : String) (history : List Call)
      → IsBefore now history
      → IsOrdered history
      → (lookup hash now (some token) (replay history)).0 ≡ expected token now history
  unfolding lookup
  lookup-replay now token history before ordered =
      let e = (replay-IsSound now history before ordered).0.1 token in
      elim (Option-cases (get (hash token) (replay history).sessions)) [
        | inl absent ↦ ground (arith, e, absent)
        | inr (s, there) ↦ ground (arith, e, there)
      ]
