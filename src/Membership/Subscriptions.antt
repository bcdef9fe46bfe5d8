-- ===== src/Membership/Subscriptions.antt =====
-- Every watched channel has one open relay subscription, and no other is open.
use obelisk_sfu.Prelude.{
  ℕ, suc, String, List, [], ◌∷◌, none, some, ◌≡◌, ◌∙◌, sym, ◌+◌, ◌-◌, refl, if◌then◌else◌, ltb,
  nat_eq, arith, Option-cases, Bool-cases, inl, inr,
}
use obelisk_sfu.Map.{Map, get, set, delete}
use obelisk_sfu.Nostr.{Event}
use obelisk_sfu.Membership.{
  ChannelState, MembershipTracker, watch, ingest, ingest_state, ready_timeout, release, reject,
  close_sub,
}
use obelisk_sfu.Membership.Counting.{Call, watches, releases, arrives, times_out, step, replay}

pub count : ℕ → List ℕ → ℕ
count a [] = 0
count a (x ∷ xs) = if nat_eq x a then suc (count a xs) else count a xs

-- How many entries of the table have the subscription.
pub count_entries : ℕ → Map ChannelState → ℕ
count_entries a [] = 0
count_entries a ((id, s) ∷ m) =
    if nat_eq s.sub a then suc (count_entries a m) else count_entries a m

count_entries-set_old :
    (a : ℕ) (id : String) (s t : ChannelState) (m : Map ChannelState)
    → get id m ≡ some s
    → t.sub ≡ s.sub
    → count_entries a (set id t m) ≡ count_entries a m
unfolding count_entries set get
count_entries-set_old a id s t [] e h = ground arith
count_entries-set_old a id s t ((j, u) ∷ m) e h = ground (arith, count_entries-set_old a id s t m)

count_entries-set_new :
    (a : ℕ) (id : String) (t : ChannelState) (m : Map ChannelState)
    → get id m ≡ none
    → count_entries a (set id t m) ≡ count_entries a m + count a (t.sub ∷ [])
unfolding count_entries count set get
count_entries-set_new a id t [] e = ground arith
count_entries-set_new a id t ((j, u) ∷ m) e = ground (arith, count_entries-set_new a id t m)

count_entries-delete :
    (a : ℕ) (id : String) (s : ChannelState) (m : Map ChannelState)
    → get id m ≡ some s
    → count_entries a m ≡ count_entries a (delete id m) + count a (s.sub ∷ [])
unfolding count_entries count delete get
count_entries-delete a id s [] e = ground arith
count_entries-delete a id s ((j, u) ∷ m) e = ground (arith, count_entries-delete a id s m)

count_entries_sub :
    (id : String) (s : ChannelState) (m : Map ChannelState)
    → get id m ≡ some s
    → (n : ℕ) × (count_entries s.sub m ≡ suc n)
unfolding count_entries get
count_entries_sub id s [] e = absurd (ground arith)
count_entries_sub id s ((j, u) ∷ m) e = elim (Bool-cases (nat_eq u.sub s.sub)) [
  | inl same ↦ (count_entries s.sub m, rw same)
  | inr other ↦ let (n, p) = count_entries_sub id s m (ground arith) in (n, rw other p)
]

count-close_sub :
    (a sub n : ℕ) (xs : List ℕ)
    → count sub xs ≡ suc n
    → count a xs ≡ count a (close_sub sub xs) + count a (sub ∷ [])
unfolding count close_sub
count-close_sub a sub n [] e = ground arith
count-close_sub a sub n (x ∷ xs) e = ground (arith, count-close_sub a sub n xs)

abbrev IsCovered : MembershipTracker → Type 0
IsCovered m = (a : ℕ) → count a m.open_subs ≡ count_entries a m.channels

sub-ingest_state : {C : Type 0} (ev : Event C) (s : ChannelState) → (ingest_state ev s).sub ≡ s.sub
unfolding ingest_state
sub-ingest_state ev s = ground arith

watch-IsCovered : (c : String) (m : MembershipTracker) → IsCovered m → IsCovered (watch c m)
unfolding watch count
watch-IsCovered c m v a = elim (Option-cases (get c m.channels)) [
  | inl e ↦ rw (e, watch) (rw (count_entries-set_new a c _ m.channels e) (ground (arith, v a)))
  | inr (s, e) ↦ rw (e, watch) (v a ∙ sym (count_entries-set_old a c s _ m.channels e refl))
]

ingest-IsCovered :
    {C : Type 0} (c : String) (ev : Event C) (m : MembershipTracker)
    → IsCovered m
    → IsCovered (ingest c ev m)
unfolding ingest
ingest-IsCovered c ev m v a = elim (Option-cases (get c m.channels)) [
  | inl e ↦ rw (e, ingest) (v a)
  | inr (s, e) ↦
      rw (e, ingest)
        (v a ∙ sym (count_entries-set_old a c s _ m.channels e (sub-ingest_state ev s)))
]

ready_timeout-IsCovered :
    (c : String) (sub : ℕ) (m : MembershipTracker) → IsCovered m → IsCovered (ready_timeout c sub m)
unfolding ready_timeout
ready_timeout-IsCovered c sub m v a = elim (Option-cases (get c m.channels)) [
  | inl e ↦ rw (e, ready_timeout) (v a)
  | inr (s, e) ↦
      rw (e, ready_timeout)
        (ground (
          arith,
          v a,
          count_entries-set_old a c s (record s { ready = reject s.ready }) m.channels e refl,
        ))
]

release-IsCovered : (c : String) (m : MembershipTracker) → IsCovered m → IsCovered (release c m)
unfolding release
release-IsCovered c m v a = elim (Option-cases (get c m.channels)) [
  | inl e ↦ rw (e, release) (v a)
  | inr (s, e) ↦ elim (Bool-cases (ltb 0 (s.refcount - 1))) [
    | inl more ↦ rw (e, release, more) (v a ∙ sym (count_entries-set_old a c s _ m.channels e refl))
    | inr last ↦
        let (n, p) = count_entries_sub c s m.channels e in
        rw (e, release, last)
          (omega (
            arith,
            v a,
            count-close_sub a s.sub n m.open_subs (v s.sub ∙ p),
            count_entries-delete a c s m.channels e,
          ))
  ]
]

-- After any history of watches, releases, events and timeouts the open relay subscriptions are
-- those of the entries of the table, each as often: none is left open and none is missing.
pub replay-IsCovered :
    {C : Type 0} (history : List (Call C)) (sub : ℕ)
    → count sub (replay history).open_subs ≡ count_entries sub (replay history).channels
unfolding replay step
replay-IsCovered [] sub = unfold count count_entries in refl
replay-IsCovered (watches c ∷ older) sub =
    watch-IsCovered c (replay older) (replay-IsCovered older) sub
replay-IsCovered (releases c ∷ older) sub =
    release-IsCovered c (replay older) (replay-IsCovered older) sub
replay-IsCovered (arrives c ev ∷ older) sub =
    ingest-IsCovered c ev (replay older) (replay-IsCovered older) sub
replay-IsCovered (times_out c s ∷ older) sub =
    ready_timeout-IsCovered c s (replay older) (replay-IsCovered older) sub
