-- ===== src/Http/Overriding.antt =====
-- The configuration that the requests leave behind is the one that a restart would make.
use obelisk_sfu.Prelude.{
  String, Bool, List, [], Option, none, some, ◌≡◌, ◌∙◌, sym, ap, subst, refl, if-rule, Option-cases,
  inl, inr,
}
use obelisk_sfu.Nostr.{Event}
use obelisk_sfu.Config.{Config}
use obelisk_sfu.Direct.{Url}
use obelisk_sfu.Follows.{follows_of, with_follows, sync_trusted_referent_follows}
use obelisk_sfu.Admin.{Verdict, signed_by, auth_error, is_console_admin}
use obelisk_sfu.Admin.Overrides.{
  RuntimeOverrides, Patch, no_voids, merge, merge_patch, apply_overrides,
}
use obelisk_sfu.Admin.Validation.{check_patch, IsSafe, check_patch-IsSafe, merge-IsSafe}
use obelisk_sfu.Admin.Restart.{apply_overrides-merge}
use obelisk_sfu.Http.{
  Request, Route, test_inject, admin_ui, session_get, session_post, session_delete, admin_get,
  admin_put, admin_restart, admin_sync_follows, test_peer_list, test_peer_spawn, test_peer_stop,
  root, info, health, rooms, channel_resolve, channels, method_not_allowed, not_found, route,
}
use obelisk_sfu.Http.Handlers.{
  Server, Moment, Response, auth_or_fail, guarded, given, or_else, override, put_checked, put_patch,
  sync_follows, does, exit, lists_peers, spawns_peer, stops_peer, open_session, handle_session_get,
  handle_session_post, handle_session_delete, handle_route, handle, signer,
}

-- A configuration but for the keys that the trusted referents follow.
abbrev pub without_follows : Config → Config
without_follows cfg = record cfg { follow_allowed_pubkeys = [] }

-- `env` is the configuration of the environment. The overrides passed the checks, and the
-- configuration is what they make of `env`.
abbrev pub IsConsistent : Config → Server → Type 0
IsConsistent env s =
    IsSafe s.overrides × (without_follows s.cfg ≡ without_follows (apply_overrides s.overrides env))

with_follows-without_follows :
    (keys : Option (List String)) (cfg cfg' : Config)
    → with_follows keys cfg ≡ some cfg'
    → without_follows cfg' ≡ without_follows cfg
with_follows-without_follows none cfg cfg' h = absurd cc
with_follows-without_follows (some keys) cfg cfg' h =
    ap (λ (o : Option Config). without_follows (or_else o cfg)) (sym h)

sync-without_follows :
    (contacts : Option (List (Event String))) (cfg cfg' : Config)
    → sync_trusted_referent_follows contacts cfg ≡ some cfg'
    → without_follows cfg' ≡ without_follows cfg
unfolding sync_trusted_referent_follows
sync-without_follows contacts cfg cfg' h =
    with_follows-without_follows (follows_of cfg.trusted_referent_pubkeys contacts) cfg cfg' h

apply-without_follows :
    (o : RuntimeOverrides) (cfg : Config)
    → without_follows (apply_overrides o cfg) ≡ apply_overrides o (without_follows cfg)
unfolding apply_overrides
apply-without_follows o cfg = refl

or_else-without_follows :
    (contacts : Option (List (Event String))) (cfg : Config)
    → without_follows (or_else (sync_trusted_referent_follows contacts cfg) cfg)
      ≡ without_follows cfg
or_else-without_follows contacts cfg =
    elim (Option-cases (sync_trusted_referent_follows contacts cfg)) [
      | inl e ↦ rw e refl
      | inr (cfg', e) ↦ rw e (sync-without_follows contacts cfg cfg' e)
    ]

applied-IsConsistent :
    (env : Config) (patch : RuntimeOverrides) (s : Server)
    → IsSafe patch
    → IsConsistent env s
    → without_follows (apply_overrides (merge s.overrides patch) s.cfg)
      ≡ without_follows (apply_overrides (merge s.overrides patch) env)
applied-IsConsistent env patch s safe h =
    let merged = merge s.overrides patch in
    let all_safe = merge-IsSafe s.overrides patch h.0 safe in
    apply-without_follows merged s.cfg
    ∙ ap (apply_overrides merged) (h.1 ∙ apply-without_follows s.overrides env)
    ∙ apply_overrides-merge s.overrides patch (without_follows env) all_safe
    ∙ sym (apply-without_follows merged env)

-- A patch without `null` and the like.
abbrev pub typed : RuntimeOverrides → Patch
typed patch = record { given = patch; voids = no_voids }

-- No member of the patch is `null` or of another type than the interface says, but for those that
-- may be `null`.
abbrev pub IsTyped : Option Patch → Type 0
IsTyped none = Unit {0}
IsTyped (some p) = p.voids ≡ no_voids

override-IsConsistent :
    (env : Config) (t : Moment) (patch : RuntimeOverrides) (s : Server)
    → IsSafe patch
    → IsConsistent env s
    → IsConsistent env (override t (typed patch) s)
unfolding override merge_patch
override-IsConsistent env t patch s safe h =
    let merged = merge s.overrides patch in
    let applied = apply_overrides merged s.cfg in
    (
      merge-IsSafe s.overrides patch h.0 safe,
      if-rule (λ (c : Config). without_follows c ≡ without_follows (apply_overrides merged env))
          (given patch.trusted_referent_pubkeys) _ _
          (λ on.
            or_else-without_follows t.contacts applied ∙ applied-IsConsistent env patch s safe h)
          (λ off. applied-IsConsistent env patch s safe h),
    )

typed_patch-IsConsistent :
    (env : Config) (t : Moment) (patch : RuntimeOverrides) (s : Server)
    → IsConsistent env s
    → IsConsistent env (put_patch t (some (typed patch)) s).1
unfolding put_patch put_checked
typed_patch-IsConsistent env t patch s h = elim (Option-cases (check_patch t.now patch)) [
  | inl e ↦
      rw (e, put_checked) (override-IsConsistent env t patch s (check_patch-IsSafe t.now patch e) h)
  | inr (problem, e) ↦ rw (e, put_checked) h
]

put_patch-IsConsistent :
    (env : Config) (t : Moment) (patch : Option Patch) (s : Server)
    → IsTyped patch
    → IsConsistent env s
    → IsConsistent env (put_patch t patch s).1
unfolding put_patch
put_patch-IsConsistent env t none s typed_one h = h
put_patch-IsConsistent env t (some p) s typed_one h =
    let same : typed p.given ≡ p = ap (λ v. record p { voids = v }) (sym typed_one) in
    subst (λ q. IsConsistent env (put_patch t (some q) s).1) same
      (typed_patch-IsConsistent env t p.given s h)

sync_follows-IsConsistent :
    (env : Config) (t : Moment) (s : Server)
    → IsConsistent env s
    → IsConsistent env (sync_follows t s).1
unfolding sync_follows
sync_follows-IsConsistent env t s h =
    elim (Option-cases (sync_trusted_referent_follows t.contacts s.cfg)) [
      | inl e ↦ rw (e, sync_follows) h
      | inr (cfg', e) ↦
          rw (e, sync_follows) (h.0, sync-without_follows t.contacts s.cfg cfg' e ∙ h.1)
    ]

module _ (verify_event : Event String → Bool) (parse_url : String → Option Url)
    (decode : String → Option (Event String)) (to_upper_case hash : String → String)
    (env : Config) where
  guarded-IsConsistent :
      (t : Moment) (method : String) (rest : Server → Response) (req : Request) (s : Server)
      → ((s : Server) → IsConsistent env s → IsConsistent env (rest s).1)
      → IsConsistent env s
      → IsConsistent env
          (guarded verify_event parse_url decode to_upper_case hash t method rest req s).1
  unfolding guarded auth_or_fail
  guarded-IsConsistent t method rest req s keeps h =
      let auth = auth_or_fail verify_event parse_url decode to_upper_case hash t method req s in
      elim (Option-cases auth.1) [ inl e ↦ rw e (keeps auth.0 h) | inr (status, e) ↦ rw e h ]

  open_session-IsConsistent :
      (t : Moment) (s : Server) (v : Verdict)
      → IsConsistent env s
      → IsConsistent env (open_session verify_event parse_url decode to_upper_case hash t s v).1
  unfolding open_session
  open_session-IsConsistent t s (auth_error status) h = h
  open_session-IsConsistent t s (signed_by pubkey) h =
      if-rule (λ (r : Response). IsConsistent env r.1) (is_console_admin s.cfg s.sfu_pubkey pubkey)
        _ _ (λ on. h) (λ off. h)

  handle_route-IsConsistent :
      (t : Moment) (r : Route) (req : Request) (s : Server)
      → IsTyped req.patch
      → IsConsistent env s
      → IsConsistent env (handle_route verify_event parse_url decode to_upper_case hash t r req s).1
  unfolding handle_route handle_session_get handle_session_post handle_session_delete
  handle_route-IsConsistent t session_post req s w h =
      open_session-IsConsistent t s
        (signer verify_event parse_url decode to_upper_case hash t "POST" req) h
  handle_route-IsConsistent t admin_get req s w h =
      guarded-IsConsistent t "GET" (λ s. (200, s)) req s (λ s q. q) h
  handle_route-IsConsistent t admin_put req s w h =
      guarded-IsConsistent t "PUT" (put_patch t req.patch) req s
        (λ s q. put_patch-IsConsistent env t req.patch s w q) h
  handle_route-IsConsistent t admin_restart req s w h =
      guarded-IsConsistent t "POST" (λ s. (200, exit s)) req s (λ s q. q) h
  handle_route-IsConsistent t admin_sync_follows req s w h =
      guarded-IsConsistent t "POST" (sync_follows t) req s (sync_follows-IsConsistent env t) h
  handle_route-IsConsistent t test_peer_list req s w h =
      guarded-IsConsistent t "GET" (does t test_peer_list lists_peers) req s (λ s q. q) h
  handle_route-IsConsistent t test_peer_spawn req s w h =
      guarded-IsConsistent t "POST" (does t test_peer_spawn spawns_peer) req s (λ s q. q) h
  handle_route-IsConsistent t test_peer_stop req s w h =
      guarded-IsConsistent t "POST" (does t test_peer_stop stops_peer) req s (λ s q. q) h
  handle_route-IsConsistent t test_inject req s w h = h
  handle_route-IsConsistent t session_get req s w h = h
  handle_route-IsConsistent t session_delete req s w h = h
  handle_route-IsConsistent t method_not_allowed req s w h = h
  handle_route-IsConsistent t not_found req s w h = h
  handle_route-IsConsistent t admin_ui req s w h = h
  handle_route-IsConsistent t root req s w h = h
  handle_route-IsConsistent t info req s w h = h
  handle_route-IsConsistent t health req s w h = h
  handle_route-IsConsistent t rooms req s w h = h
  handle_route-IsConsistent t channel_resolve req s w h = h
  handle_route-IsConsistent t channels req s w h = h

  -- Every request whose patch, if it has one, has no `null` but where it may, and only members of
  -- their types, keeps this: the overrides that are stored have passed the checks, and the running
  -- configuration, but for the keys that the trusted referents follow, is the one that a restart
  -- would make of the environment and the stored overrides.
  pub handle-IsConsistent :
      (t : Moment) (req : Request) (s : Server)
      → IsTyped req.patch
      → IsConsistent env s
      → IsConsistent env (handle verify_event parse_url decode to_upper_case hash t req s).1
  unfolding handle
  handle-IsConsistent t req s w h = handle_route-IsConsistent t (route req.method req.url) req s w h
