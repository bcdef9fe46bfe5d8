-- ===== src/Admin/Validation.antt =====
-- src/http-server.ts: the checks of a patch in `handleAdminPut`, and what passes them.
use text.Mathlib.Text.{starts_with}
use obelisk_sfu.Prelude.{
  ℕ, String, Bool, true, false, not, List, [], ◌∷◌, Option, none, some, ◌&&◌, ◌||◌, ◌==◌,
  if◌then◌else◌, ltb, ◌-◌, ◌≡◌, ◌≤◌, arith, refl,
}
use obelisk_sfu.Texts.{is_hex64}
use obelisk_sfu.Admin.Overrides.{RuntimeOverrides, Amount, number, other, exceeds, over, merge}

-- The answers with status 400.
pub data Problem : Type 0 where
  relays_not_ws no_relays trusted_not_ws bad_allowed bad_admin bad_referent : Problem
  bypass_not_future bypass_too_long bad_operator bad_duration : Problem

unfoldable pub is_ws : String → Bool
is_ws u = starts_with u "wss://" || starts_with u "ws://"

-- `xs.every(p)`, of which the loops return at the first failure
abbrev pub every : (String → Bool) → List String → Bool
every p [] = true
every p (x ∷ xs) = p x && every p xs

abbrev pub first_of : Option Problem → Option Problem → Option Problem
first_of (some p) q = some p
first_of none q = q

abbrev unless : Bool → Problem → Option Problem
unless true p = none
unless false p = some p

unfoldable pub check_relays : Option (List String) → Option Problem
unfolding is_ws
check_relays none = none
check_relays (some []) = some no_relays
check_relays (some (x ∷ xs)) = unless (every is_ws (x ∷ xs)) relays_not_ws

unfoldable pub check_list : (String → Bool) → Problem → Option (List String) → Option Problem
check_list p e none = none
check_list p e (some xs) = unless (every p xs) e

unfoldable pub check_bypass : ℕ → Option (Option Amount) → Option Problem
check_bypass now none = none
check_bypass now (some none) = none
check_bypass now (some (some other)) = some bypass_not_future
check_bypass now (some (some (number until part))) =
    if ltb until now
    then some bypass_not_future
    else unless (not (exceeds (until - now) part 3600)) bypass_too_long

-- `null` and the empty text pass.
unfoldable pub check_operator : Option (Option String) → Option Problem
check_operator none = none
check_operator (some none) = none
check_operator (some (some pk)) = unless (pk == "" || is_hex64 pk) bad_operator

unfoldable pub check_duration : Option Amount → Option Problem
check_duration none = none
check_duration (some other) = some bad_duration
check_duration (some (number n part)) = unless (not (exceeds n part 86400)) bad_duration

-- The checks in their order.
unfoldable pub check_patch : ℕ → RuntimeOverrides → Option Problem
unfolding check_relays check_list check_bypass check_operator check_duration
check_patch now o = first_of (check_relays o.relays) (
    first_of (check_list is_ws trusted_not_ws o.trusted_author_relays) (
      first_of (check_list is_hex64 bad_allowed o.allowed) (
        first_of (check_list is_hex64 bad_admin o.admins) (
          first_of (check_list is_hex64 bad_referent o.trusted_referent_pubkeys) (
            first_of (check_bypass now o.whitelist_bypass_until) (
              first_of (check_operator o.operator_pubkey)
                (check_duration o.max_call_duration_seconds)))))))

-- What a relay list is held to: it is not empty, and all are WebSocket URLs.
abbrev pub IsRelayList : Option (List String) → Type 0
IsRelayList none = Unit {0}
IsRelayList (some []) = ⊥
IsRelayList (some (x ∷ xs)) = every is_ws (x ∷ xs) ≡ true

abbrev pub HasAll : (String → Bool) → Option (List String) → Type 0
HasAll p none = Unit {0}
HasAll p (some xs) = every p xs ≡ true

abbrev pub IsDuration : Option Amount → Type 0
IsDuration none = Unit {0}
IsDuration (some other) = ⊥
IsDuration (some (number n part)) = n ≤ 86400

abbrev pub IsBypass : Option (Option Amount) → Type 0
IsBypass (some (some other)) = ⊥
IsBypass (some (some (number n part))) = Unit {0}
IsBypass (some none) = Unit {0}
IsBypass none = Unit {0}

-- The overrides that may stand in `runtime.json`.
abbrev pub IsSafe : RuntimeOverrides → Type 0
IsSafe o =
    IsRelayList o.relays
    × HasAll is_ws o.trusted_author_relays
    × HasAll is_hex64 o.allowed
    × HasAll is_hex64 o.admins
    × HasAll is_hex64 o.trusted_referent_pubkeys
    × IsBypass o.whitelist_bypass_until
    × IsDuration o.max_call_duration_seconds

first_of-none : (p q : Option Problem) → first_of p q ≡ none → (p ≡ none) × (q ≡ none)
first_of-none none q h = (refl, h)
first_of-none (some x) q h = absurd cc

check_relays-IsRelayList : (xs : Option (List String)) → check_relays xs ≡ none → IsRelayList xs
unfolding check_relays
check_relays-IsRelayList none h = tt
check_relays-IsRelayList (some []) h = absurd cc
check_relays-IsRelayList (some (x ∷ xs)) h = ground (arith, h)

check_list-HasAll :
    (p : String → Bool) (e : Problem) (xs : Option (List String))
    → check_list p e xs ≡ none
    → HasAll p xs
unfolding check_list
check_list-HasAll p e none h = tt
check_list-HasAll p e (some xs) h = ground (arith, h)

check_bypass-IsBypass :
    (now : ℕ) (x : Option (Option Amount)) → check_bypass now x ≡ none → IsBypass x
unfolding check_bypass
check_bypass-IsBypass now none h = tt
check_bypass-IsBypass now (some none) h = tt
check_bypass-IsBypass now (some (some other)) h = absurd cc
check_bypass-IsBypass now (some (some (number n part))) h = tt

check_duration-IsDuration : (x : Option Amount) → check_duration x ≡ none → IsDuration x
unfolding check_duration
check_duration-IsDuration none h = tt
check_duration-IsDuration (some other) h = absurd cc
check_duration-IsDuration (some (number n part)) h = ground (arith, h)

pub check_patch-IsSafe : (now : ℕ) (o : RuntimeOverrides) → check_patch now o ≡ none → IsSafe o
unfolding check_patch
check_patch-IsSafe now o h =
    let (a, h1) = first_of-none (check_relays o.relays) _ h in
    let (b, h2) = first_of-none (check_list is_ws trusted_not_ws o.trusted_author_relays) _ h1 in
    let (c, h3) = first_of-none (check_list is_hex64 bad_allowed o.allowed) _ h2 in
    let (d, h4) = first_of-none (check_list is_hex64 bad_admin o.admins) _ h3 in
    let (e, h5) =
      first_of-none (check_list is_hex64 bad_referent o.trusted_referent_pubkeys) _ h4 in
    let (f, h6) = first_of-none (check_bypass now o.whitelist_bypass_until) _ h5 in
    let (g, h7) = first_of-none (check_operator o.operator_pubkey) _ h6 in
    (
      check_relays-IsRelayList o.relays a,
      check_list-HasAll is_ws trusted_not_ws o.trusted_author_relays b,
      check_list-HasAll is_hex64 bad_allowed o.allowed c,
      check_list-HasAll is_hex64 bad_admin o.admins d,
      check_list-HasAll is_hex64 bad_referent o.trusted_referent_pubkeys e,
      check_bypass-IsBypass now o.whitelist_bypass_until f,
      check_duration-IsDuration o.max_call_duration_seconds h7,
    )

over-keeps {ℓ} :
    {A : Type ℓ} (P : Option A → Type 0) (old new : Option A) → P old → P new → P (over old new)
over-keeps P old none ho hn = ho
over-keeps P old (some x) ho hn = hn

pub merge-IsSafe :
    (old patch : RuntimeOverrides) → IsSafe old → IsSafe patch → IsSafe (merge old patch)
unfolding merge
merge-IsSafe old patch ho hp = (
  over-keeps IsRelayList old.relays patch.relays ho.0 hp.0,
  over-keeps (HasAll is_ws) old.trusted_author_relays patch.trusted_author_relays ho.1 hp.1,
  over-keeps (HasAll is_hex64) old.allowed patch.allowed ho.2 hp.2,
  over-keeps (HasAll is_hex64) old.admins patch.admins ho.3 hp.3,
  over-keeps (HasAll is_hex64) old.trusted_referent_pubkeys patch.trusted_referent_pubkeys ho.4
      hp.4,
  over-keeps IsBypass old.whitelist_bypass_until patch.whitelist_bypass_until ho.5 hp.5,
  over-keeps IsDuration old.max_call_duration_seconds patch.max_call_duration_seconds ho.6 hp.6,
)
