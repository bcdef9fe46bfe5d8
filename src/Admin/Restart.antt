-- ===== src/Admin/Restart.antt =====
-- A change of the overrides takes effect at once as it does after a restart.
use obelisk_sfu.Prelude.{ℕ, String, List, [], ◌∷◌, Option, none, some, ◌≡◌, refl}
use obelisk_sfu.Config.{Config}
use obelisk_sfu.Admin.Overrides.{
  RuntimeOverrides, Amount, number, other, over, merge, keep_keys, if_given, if_some, floor_or_null,
  floor_or, apply_overrides,
}
use obelisk_sfu.Admin.Validation.{IsSafe, IsRelayList, IsDuration}

given_twice {ℓ κ} :
    {A : Type ℓ} {B : Type κ} (old new : Option A) (f : A → B) (b : B)
    → if_given (over old new) f (if_given old f b) ≡ if_given (over old new) f b
given_twice none none f b = refl
given_twice (some x) none f b = refl
given_twice none (some y) f b = refl
given_twice (some x) (some y) f b = refl

relays_twice :
    (old new : Option (List String)) (b : List String)
    → IsRelayList (over old new)
    → if_given
        (over old new)
        (λ xs. if_some xs (if_given old (λ ys. if_some ys b) b))
        (if_given old (λ ys. if_some ys b) b)
      ≡ if_given (over old new) (λ xs. if_some xs b) b
relays_twice none none b h = refl
relays_twice (some []) none b h = absurd h
relays_twice (some (x ∷ xs)) none b h = refl
relays_twice old (some []) b h = absurd h
relays_twice none (some (y ∷ ys)) b h = refl
relays_twice (some xs) (some (y ∷ ys)) b h = refl

duration_twice :
    (old new : Option Amount) (b : ℕ)
    → IsDuration (over old new)
    → if_given
        (over old new)
        (λ x. floor_or x (if_given old (λ y. floor_or y b) b))
        (if_given old (λ y. floor_or y b) b)
      ≡ if_given (over old new) (λ x. floor_or x b) b
duration_twice none none b h = refl
duration_twice (some (number n part)) none b h = refl
duration_twice (some other) none b h = absurd h
duration_twice old (some other) b h = absurd h
duration_twice none (some (number n part)) b h = refl
duration_twice (some x) (some (number n part)) b h = refl

-- Whatever the environment sets: the overrides of the file, applied at the start, and then those
-- merged with a patch, applied while the server runs, make the same configuration as the merged
-- ones do at the next start, if the merged ones are such as the checks let through.
pub apply_overrides-merge :
    (old patch : RuntimeOverrides) (env : Config)
    → IsSafe (merge old patch)
    → apply_overrides (merge old patch) (apply_overrides old env)
      ≡ apply_overrides (merge old patch) env
unfolding apply_overrides merge
apply_overrides-merge old patch env h =
    rw
      (
        relays_twice old.relays patch.relays env.relays h.0,
        given_twice old.trusted_author_relays patch.trusted_author_relays (λ xs. xs)
            env.trusted_author_relays,
        given_twice old.trusted_referent_pubkeys patch.trusted_referent_pubkeys
            (λ xs. keep_keys xs []) env.trusted_referent_pubkeys,
        given_twice old.whitelist_bypass_until patch.whitelist_bypass_until floor_or_null
            env.whitelist_bypass_until,
        given_twice old.public_url patch.public_url (λ x. x) env.public_url,
        given_twice old.region patch.region (λ x. x) env.region,
        given_twice old.operator_pubkey patch.operator_pubkey (λ x. x) env.operator_pubkey,
        given_twice old.allow_all patch.allow_all (λ x. x) env.allow_all,
        given_twice old.require_allowed_pubkey patch.require_allowed_pubkey (λ x. x)
            env.require_allowed_pubkey,
        duration_twice old.max_call_duration_seconds patch.max_call_duration_seconds
            env.max_call_duration_seconds h.6,
        given_twice old.admins patch.admins (λ xs. keep_keys xs []) env.admin_pubkeys,
        given_twice old.allowed patch.allowed (λ xs. keep_keys xs []) env.allowed_pubkeys,
      )
      refl
