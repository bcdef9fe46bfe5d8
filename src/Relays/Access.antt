-- ===== src/Relays/Access.antt =====
-- What a publication makes of the access of a relay.
use obelisk_sfu.Prelude.{
  ℕ, String, Bool, true, false, List, [], ◌∷◌, Option, none, some, ◌≡◌, ◌<◌, ◌≤◌, ◌==◌, ◌∙◌, ap,
  sym, subst, refl, arith, eq_iff, if◌then◌else◌, max, value_or, inl, inr, Bool-cases,
}
use obelisk_sfu.Map.{get}
use obelisk_sfu.Map.Laws.{get-set_self, get-set_ne}
use obelisk_sfu.StringSet.{includes}
use obelisk_sfu.Relays.{
  write, RelayAccess, ok, denied, closed, RelayPool, Answer, acks, rejects, settled, slice, note,
  note_all, publish, is_relay_access_denied, judge, relay_access, Failure, at_time, latest,
}

-- What is noted of a relay: its last good answer, its last bad one, and the message with it.
abbrev pub Notes : Type 0
Notes = Option ℕ × Option ℕ × Option String

abbrev pub notes : String → RelayPool → Notes
notes url p =
    (get url p.last_publish_ok, get url p.last_publish_err, get url p.last_publish_err_msg)

abbrev pub noted : ℕ → Answer → Notes → Notes
noted now acks n = (some now, n.1, n.2)
noted now (rejects msg) n = (n.0, some now, some (slice 200 msg))

notes-note_self :
    (now : ℕ) (url : String) (a : Answer) (p : RelayPool)
    → notes url (note now url a p) ≡ noted now a (notes url p)
unfolding note
notes-note_self now url acks p = rw (get-set_self url now p.last_publish_ok) refl
notes-note_self now url (rejects msg) p =
    rw
      (
        get-set_self url now p.last_publish_err,
        get-set_self url (slice 200 msg) p.last_publish_err_msg,
      )
      refl

notes-note_other :
    (now : ℕ) (url other : String) (a : Answer) (p : RelayPool)
    → (other == url) ≡ false
    → notes url (note now other a p) ≡ notes url p
unfolding note
notes-note_other now url other acks p h = rw (get-set_ne other url now p.last_publish_ok h) refl
notes-note_other now url other (rejects msg) p h =
    rw
      (
        get-set_ne other url now p.last_publish_err h,
        get-set_ne other url (slice 200 msg) p.last_publish_err_msg h,
      )
      refl

noted_twice : (now : ℕ) (a : Answer) (n : Notes) → noted now a (noted now a n) ≡ noted now a n
noted_twice now acks n = refl
noted_twice now (rejects msg) n = refl

module _ (now : ℕ) (first retry : String → Answer) (url : String) where
  abbrev pub answer : Answer
  answer = settled (first url) (retry url)

  again :
      (b : Bool) (n : Notes)
      → (if b then noted now answer (noted now answer n) else noted now answer n)
        ≡ noted now answer n
  again true n = noted_twice now answer n
  again false n = refl

  pub notes-note_all :
      (urls : List String) (p : RelayPool)
      → notes url (note_all now first retry urls p)
        ≡ (if includes url urls then noted now answer (notes url p) else notes url p)
  unfolding note_all includes
  notes-note_all [] p = refl
  notes-note_all (u ∷ urls) p = elim (Bool-cases (u == url)) [
    | inl same ↦
        let here : notes url (note_all now first retry urls (note now url answer p))
            ≡ noted now answer (notes url p) =
          notes-note_all urls (note now url answer p)
          ∙ ap (λ n. if includes url urls then noted now answer n else n)
              (notes-note_self now url answer p)
          ∙ again (includes url urls) (notes url p) in
        rw same (
          subst
            (λ v.
              notes url (note_all now first retry urls (note now v (settled (first v) (retry v)) p))
              ≡ noted now answer (notes url p))
            (sym ((eq_iff u url).0 same)) here)
    | inr other ↦
        notes-note_all urls (note now u (settled (first u) (retry u)) p)
        ∙ rw (notes-note_other now url u (settled (first u) (retry u)) p other, other) refl
  ]

  -- What a publication touches nothing else of.
  note-keeps :
      (u : String) (a : Answer) (p : RelayPool)
      → ((note now u a p).last_event_at ≡ p.last_event_at)
        × ((note now u a p).last_subscribe_close ≡ p.last_subscribe_close)
        × ((note now u a p).last_subscribe_close_msg ≡ p.last_subscribe_close_msg)
  unfolding note
  note-keeps u acks p = (refl, refl, refl)
  note-keeps u (rejects msg) p = (refl, refl, refl)

  note_all-keeps :
      (urls : List String) (p : RelayPool)
      → ((note_all now first retry urls p).last_event_at ≡ p.last_event_at)
        × ((note_all now first retry urls p).last_subscribe_close ≡ p.last_subscribe_close)
        × ((note_all now first retry urls p).last_subscribe_close_msg ≡ p.last_subscribe_close_msg)
  unfolding note_all
  note_all-keeps [] p = (refl, refl, refl)
  note_all-keeps (u ∷ urls) p =
      let a = settled (first u) (retry u) in
      let one = note-keeps u a p in
      let rest = note_all-keeps urls (note now u a p) in
      (rest.0 ∙ one.0, rest.1 ∙ one.1, rest.2 ∙ one.2)

  -- The access of a relay by what is noted of it.
  abbrev by_notes : Option ℕ → Option Failure → Notes → RelayAccess × Option String
  by_notes event close n =
      judge (max (value_or event 0) (value_or n.0 0)) (latest (at_time n.1 n.2) close)

  -- What an answer of a relay says of its access.
  abbrev access_by : Answer → RelayAccess × Option String
  access_by acks = (ok, none)
  access_by (rejects msg) =
      if is_relay_access_denied (slice 200 msg)
      then (denied, some (slice 200 msg))
      else (closed, some (slice 200 msg))

  -- What the answer of a relay to the event, and that to the same event after an authentication,
  -- say of its access: the second one says nothing unless the first one tells of denied access.
  abbrev pub access_shown : Answer → Answer → RelayAccess × Option String
  access_shown acks second = (ok, none)
  access_shown (rejects msg) acks =
      if is_relay_access_denied msg then (ok, none) else access_by (rejects msg)
  access_shown (rejects msg) (rejects text) =
      if is_relay_access_denied msg then access_by (rejects text) else access_by (rejects msg)

  access_by-settled : (a second : Answer) → access_by (settled a second) ≡ access_shown a second
  unfolding settled
  access_by-settled acks second = refl
  access_by-settled (rejects msg) acks = ground arith
  access_by-settled (rejects msg) (rejects text) = ground arith

  -- Nothing is later than a time.
  abbrev pub IsUpTo : ℕ → Option ℕ → Type 0
  IsUpTo t none = Unit {0}
  IsUpTo t (some at) = at ≤ t

  by_notes-acks :
      (event ok_at err : Option ℕ) (msg : Option String) (close : Option ℕ) (reason : Option String)
      → 0 < now
      → IsUpTo now err
      → IsUpTo now close
      → by_notes event (at_time close reason) (some now, err, msg) ≡ (ok, none)
  unfolding judge
  by_notes-acks event ok_at none msg none reason pos he hc = ground arith
  by_notes-acks event ok_at (some e) msg none reason pos he hc = ground arith
  by_notes-acks event ok_at none msg (some c) reason pos he hc = ground arith
  by_notes-acks event ok_at (some e) msg (some c) reason pos he hc = ground arith

  by_notes-rejects :
      (event ok_at : Option ℕ) (text : String) (close : Option ℕ) (reason : Option String)
      → value_or event 0 < now
      → value_or ok_at 0 < now
      → IsUpTo now close
      → by_notes event (at_time close reason) (ok_at, some now, some (slice 200 text))
        ≡ access_by (rejects text)
  unfolding judge
  by_notes-rejects event ok_at text none reason he ho hc = ground arith
  by_notes-rejects event ok_at text (some c) reason he ho hc = ground arith

  -- A time at which nothing has been noted yet of the relay but, perhaps, a close.
  abbrev pub IsFresh : RelayPool → Type 0
  IsFresh p =
      (value_or (get url p.last_event_at) 0 < now)
      × (value_or (get url p.last_publish_ok) 0 < now)
      × IsUpTo now (get url p.last_publish_err)
      × IsUpTo now (get url p.last_subscribe_close)

  by_notes-noted :
      (a : Answer) (p : RelayPool)
      → IsFresh p
      → by_notes
          (get url p.last_event_at)
          (at_time (get url p.last_subscribe_close) (get url p.last_subscribe_close_msg))
          (noted now a (notes url p))
        ≡ access_by a
  by_notes-noted acks p h =
      by_notes-acks (get url p.last_event_at) (get url p.last_publish_ok)
        (get url p.last_publish_err) (get url p.last_publish_err_msg)
        (get url p.last_subscribe_close) (get url p.last_subscribe_close_msg) (omega (arith, h.0))
        h.2 h.3
  by_notes-noted (rejects msg) p h =
      by_notes-rejects (get url p.last_event_at) (get url p.last_publish_ok) msg
        (get url p.last_subscribe_close) (get url p.last_subscribe_close_msg) h.0 h.1 h.3

  -- After a publication, the access of a relay that is written to is ok if it took the event, at
  -- once or after the authentication that follows a message of denied access; denied if the message
  -- of its last rejection tells of denied access, and closed otherwise, with the message as the
  -- detail. The relay was last heard, and last took an event, before this time, and nothing of it
  -- is later.
  pub relay_access-publish :
      (p : RelayPool)
      → includes url p.write_relays ≡ true
      → IsFresh p
      → relay_access url write (publish now first retry p) ≡ access_shown (first url) (retry url)
  unfolding relay_access publish
  relay_access-publish p w h =
      let kept = note_all-keeps p.write_relays p in
      let after =
        notes-note_all p.write_relays p
        ∙ ap (λ b. if b then noted now answer (notes url p) else notes url p) w in
      ap
        (by_notes (get url (publish now first retry p).last_event_at) (
          at_time (get url (publish now first retry p).last_subscribe_close)
            (get url (publish now first retry p).last_subscribe_close_msg)))
        after
      ∙ ap
          (λ m.
            by_notes (get url m)
              (at_time (get url (publish now first retry p).last_subscribe_close)
                (get url (publish now first retry p).last_subscribe_close_msg))
              (noted now answer (notes url p)))
          kept.0
      ∙ ap
          (λ m.
            by_notes (get url p.last_event_at)
              (at_time (get url m) (get url (publish now first retry p).last_subscribe_close_msg))
              (noted now answer (notes url p)))
          kept.1
      ∙ ap
          (λ m.
            by_notes (get url p.last_event_at)
              (at_time (get url p.last_subscribe_close) (get url m))
              (noted now answer (notes url p)))
          kept.2
      ∙ by_notes-noted answer p h
      ∙ access_by-settled (first url) (retry url)
