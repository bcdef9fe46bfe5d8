-- ===== src/Direct/Wire/Arrival.antt =====
-- The messages of a client reach the chain of its connection.
use mathlib.Core.List.{append_assoc, append-nil}
use obelisk_sfu.Prelude.{
  ℕ, String, Bool, List, [], ◌∷◌, ◌++◌, map, Option, ◌≡◌, ◌∙◌, ap, sym, refl, All,
}
use obelisk_sfu.Nostr.{Event}
use obelisk_sfu.Frames.Parser.{Signal, Drained, push}
use obelisk_sfu.Frames.Chunks.{pushes, concat}
use obelisk_sfu.Frames.Clients.{Message, IsShort, send_all, texts, pushes-send_all}
use obelisk_sfu.Direct.{Url}
use obelisk_sfu.Direct.Connection.{Incoming, Connection}
use obelisk_sfu.Direct.Steps.{Setting, Input, step, run}
use obelisk_sfu.Direct.Wire.{callback, Wire, receive_all}

map-append : (f : Signal → Input) (xs ys : List Signal) → map f (xs ++ ys) ≡ map f xs ++ map f ys
map-append f [] ys = refl
map-append f (x ∷ xs) ys = ap (λ l. f x ∷ l) (map-append f xs ys)

module _ (verify_event : Event String → Bool) (parse_url : String → Option Url) (k : Setting)
    (decode : List ℕ → Incoming) where
  run-append :
      (is js : List Input) (c : Connection)
      → run verify_event parse_url k (is ++ js) c
        ≡ run verify_event parse_url k js (run verify_event parse_url k is c)
  unfolding run
  run-append [] js c = refl
  run-append (i ∷ is) js c = run-append is js (step verify_event parse_url k i c)

  -- What all the calls of a parser make of the connection.
  abbrev told : Drained → Connection → Wire
  told d c = (run verify_event parse_url k (map (callback decode) d.0) c, d.1)

  receive_all-pushes :
      (chunks : List (List ℕ)) (c : Connection) (buffer : List ℕ)
      → receive_all verify_event parse_url k decode chunks (c, buffer)
        ≡ told (pushes buffer chunks) c
  unfolding receive_all run
  receive_all-pushes [] c buffer = refl
  receive_all-pushes (chunk ∷ chunks) c buffer =
      let d = push buffer chunk in
      let c' = run verify_event parse_url k (map (callback decode) d.0) c in
      let rest = pushes d.1 chunks in
      receive_all-pushes chunks c' d.1
      ∙ ap (λ (x : Connection). (x, rest.1))
          (sym (run-append (map (callback decode) d.0) (map (callback decode) rest.0) c)
            ∙ ap (λ (is : List Input). run verify_event parse_url k is c)
                (sym (map-append (callback decode) d.0 rest.0)))

  run-texts :
      (ms : List Message) (c : Connection)
      → run verify_event parse_url k (map (callback decode) (texts ms)) c
        ≡ record c { chain = c.chain ++ map (λ m. decode m.payload) ms }
  unfolding run step
  run-texts [] c = ap (λ l. record c { chain = l }) (sym (append-nil c.chain))
  run-texts (m ∷ ms) c =
      run-texts ms (record c { chain = c.chain ++ decode m.payload ∷ [] })
      ∙ ap (λ l. record c { chain = l })
          (append_assoc c.chain (decode m.payload ∷ []) (map (λ m. decode m.payload) ms))

  -- The messages of a client, each a masked text frame of less than 4 GiB, with any masks and in
  -- whatever chunks their bytes arrive, stand behind the chain of the connection, decoded, in their
  -- order; nothing else of the connection changes, and no byte is left in the parser.
  pub receive_all-send_all :
      (ms : List Message) (chunks : List (List ℕ)) (c : Connection)
      → All IsShort ms
      → concat chunks ≡ send_all ms
      → receive_all verify_event parse_url k decode chunks (c, [])
        ≡ (record c { chain = c.chain ++ map (λ m. decode m.payload) ms }, [])
  receive_all-send_all ms chunks c h e =
      receive_all-pushes chunks c []
      ∙ ap (λ (d : Drained). told d c) (pushes-send_all ms chunks h e)
      ∙ ap (λ (x : Connection). (x, [])) (run-texts ms c)
