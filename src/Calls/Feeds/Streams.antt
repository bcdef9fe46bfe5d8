-- ===== src/Calls/Feeds/Streams.antt =====
-- The streams that the subscriptions of the listener stand for.
use obelisk_sfu.Prelude.{
  ℕ, suc, String, Bool, true, false, not, List, [], ◌∷◌, ◌++◌, Option, none, some, ◌≡◌, ◌<◌, ◌==◌,
  ◌⊎◌, ◌∙◌, refl, sym, ap, inl, inr, arith, any, keep, nat_eq, eq_iff, Bool-cases,
}
use obelisk_sfu.Map.{get, set}
use obelisk_sfu.Map.Laws.{get-set, get-set_ne}
use obelisk_sfu.Calls.Feeds.{Feeds, subscribe_relay, subscribe_one_relay, unsubscribe}
use obelisk_sfu.Calls.Feeds.Watchdog.{IsListening, pool-unsubscribe, subscriptions-unsubscribe}

abbrev pub is_open : ℕ → Feeds → Bool
is_open n s = any (λ x. nat_eq x n) s.open_streams

-- Every stream of a subscription is open and was numbered before the next one, and no two relays
-- share one.
pub record IsOrderly (s : Feeds) : Type 0 where
  pub opened : (url : String) (n : ℕ) → get url s.subscriptions ≡ some (some n) → is_open n s ≡ true
  pub below : (url : String) (n : ℕ) → get url s.subscriptions ≡ some (some n) → n < s.next_stream
  pub apart :
      (a b : String) (n : ℕ)
      → get a s.subscriptions ≡ some (some n)
      → get b s.subscriptions ≡ some (some n)
      → (a == b) ≡ true

next-unsubscribe :
    (u : Option (Option ℕ)) (s : Feeds) → (unsubscribe u s).next_stream ≡ s.next_stream
unfolding unsubscribe
next-unsubscribe none s = refl
next-unsubscribe (some none) s = refl
next-unsubscribe (some (some n)) s = refl

-- The open streams without that of a subscription.
abbrev without : Option (Option ℕ) → List ℕ → List ℕ
without none xs = xs
without (some none) xs = xs
without (some (some n)) xs = keep (λ x. not (nat_eq x n)) xs

open-unsubscribe :
    (u : Option (Option ℕ)) (s : Feeds) → (unsubscribe u s).open_streams ≡ without u s.open_streams
unfolding unsubscribe
open-unsubscribe none s = refl
open-unsubscribe (some none) s = refl
open-unsubscribe (some (some n)) s = refl

any-append : (f : ℕ → Bool) (xs ys : List ℕ) → any f xs ≡ true → any f (xs ++ ys) ≡ true
any-append f [] ys h = absurd cc
any-append f (x ∷ xs) ys h = ground (arith, h, any-append f xs ys)

any_last : (n : ℕ) (xs : List ℕ) → any (λ x. nat_eq x n) (xs ++ n ∷ []) ≡ true
any_last n [] = ground arith
any_last n (x ∷ xs) = ground (arith, any_last n xs)

any-keep :
    (n m : ℕ) (xs : List ℕ)
    → nat_eq n m ≡ false
    → any (λ x. nat_eq x n) xs ≡ true
    → any (λ x. nat_eq x n) (keep (λ x. not (nat_eq x m)) xs) ≡ true
any-keep n m [] e h = h
any-keep n m (x ∷ xs) e h = ground (arith, e, h, any-keep n m xs e)

module _ (now : ℕ) (url : String) (s : Feeds) (l : IsListening s) where
  pub subscriptions-subscribe_relay :
      (subscribe_relay now url s).subscriptions ≡ set url (some s.next_stream) s.subscriptions
  unfolding subscribe_relay subscribe_one_relay
  subscriptions-subscribe_relay =
      let pool = pool-unsubscribe (get url s.subscriptions) s ∙ l.pool in
      rw
        (
          l.filter.1,
          subscribe_relay,
          pool,
          subscriptions-unsubscribe (get url s.subscriptions) s,
          next-unsubscribe (get url s.subscriptions) s,
        )
        refl

  open-subscribe_relay :
      (subscribe_relay now url s).open_streams
      ≡ without (get url s.subscriptions) s.open_streams ++ s.next_stream ∷ []
  unfolding subscribe_relay subscribe_one_relay
  open-subscribe_relay =
      let pool = pool-unsubscribe (get url s.subscriptions) s ∙ l.pool in
      rw
        (
          l.filter.1,
          subscribe_relay,
          pool,
          open-unsubscribe (get url s.subscriptions) s,
          next-unsubscribe (get url s.subscriptions) s,
        )
        refl

  pub next-subscribe_relay : (subscribe_relay now url s).next_stream ≡ suc s.next_stream
  unfolding subscribe_relay subscribe_one_relay
  next-subscribe_relay =
      let pool = pool-unsubscribe (get url s.subscriptions) s ∙ l.pool in
      rw (l.filter.1, subscribe_relay, pool, next-unsubscribe (get url s.subscriptions) s) refl

  -- A stream of another relay is open still.
  is_open-without :
      (other : String) (n : ℕ)
      → IsOrderly s
      → (url == other) ≡ false
      → get other s.subscriptions ≡ some (some n)
      → any (λ x. nat_eq x n) (without (get url s.subscriptions) s.open_streams) ≡ true
  is_open-without other n o ne e = by_previous (get url s.subscriptions) refl
    where
      by_previous :
          (u : Option (Option ℕ))
          → get url s.subscriptions ≡ u
          → any (λ x. nat_eq x n) (without u s.open_streams) ≡ true
      by_previous none h = o.opened other n e
      by_previous (some none) h = o.opened other n e
      by_previous (some (some m)) h = elim (Bool-cases (nat_eq n m)) [
        | inr differ ↦ any-keep n m s.open_streams differ (o.opened other n e)
        | inl same ↦
            let shared : n ≡ m = ground (arith, same) in
            absurd (ground (arith, o.apart url other m h (e ∙ ap (λ k. some (some k)) shared), ne))
      ]

  -- What a relay is subscribed with after the renewal of one.
  by_renewal :
      (a : String) (n : ℕ)
      → get a (subscribe_relay now url s).subscriptions ≡ some (some n)
      → ((url ≡ a) × (n ≡ s.next_stream))
        ⊎ (((url == a) ≡ false) × (get a s.subscriptions ≡ some (some n)))
  by_renewal a n e =
      let e' = sym (ap (λ m. get a m) subscriptions-subscribe_relay) ∙ e in
      elim (Bool-cases (url == a)) [
        | inl same ↦
            let there = get-set url a (some s.next_stream) s.subscriptions in
            inl ((eq_iff url a).0 same, ground (arith, there, e', same))
        | inr differ ↦
            inr (differ, sym (get-set_ne url a (some s.next_stream) s.subscriptions differ) ∙ e')
      ]

  pub subscribe_relay-IsOrderly : IsOrderly s → IsOrderly (subscribe_relay now url s)
  subscribe_relay-IsOrderly o = record {
    opened = λ a n e. rw open-subscribe_relay (elim (by_renewal a n e) [
      | inl (same, fresh) ↦
          rw fresh (any_last s.next_stream (without (get url s.subscriptions) s.open_streams))
      | inr (differ, old) ↦
          any-append (λ x. nat_eq x n) (without (get url s.subscriptions) s.open_streams)
            (s.next_stream ∷ []) (is_open-without a n o differ old)
    ]);
    below = λ a n e. rw next-subscribe_relay (elim (by_renewal a n e) [
      | inl (same, fresh) ↦ omega (arith, fresh)
      | inr (differ, old) ↦ omega (arith, o.below a n old)
    ]);
    apart = λ a b n e f. elim (by_renewal a n e) [
      | inl (same, fresh) ↦ elim (by_renewal b n f) [
        | inl (same', fresh') ↦ (eq_iff a b).1 (sym same ∙ same')
        | inr (differ, old) ↦ absurd (omega (arith, fresh, o.below b n old))
      ]
      | inr (differ, old) ↦ elim (by_renewal b n f) [
        | inl (same', fresh') ↦ absurd (omega (arith, fresh', o.below a n old))
        | inr (differ', old') ↦ o.apart a b n old old'
      ]
    ];
  }
