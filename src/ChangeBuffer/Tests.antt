-- ===== src/ChangeBuffer/Tests.antt =====
-- Runs of a buffer with room for two events, and the theorem at one of them.
use hass_ontology_fix.Common.{ℕ, ◌≡◌, refl, true, none, some, List, [], ◌∷◌, arith, drop, length}
use hass_ontology_fix.ChangeBuffer.{Subscriber, init, events_since}
use hass_ontology_fix.ChangeBuffer.Requests.{
  Request, upsert, remove, reconcile, subscribe, run, history, replayable,
}
use hass_ontology_fix.ChangeBuffer.History.{events_since_exact}

-- The world counts deliveries, and the callback raises after each.
abbrev counting : Subscriber ℕ
counting event n = (length (event ∷ []), true)

abbrev requests : List (Request ℕ)
requests =
    subscribe "panel" counting
    ∷ upsert ("Entity:light.a" ∷ []) [] ("state" ∷ []) "t1"
    ∷ remove ("Entity:light.a" ∷ []) [] "t2"
    ∷ reconcile "t3"
    ∷ []

-- Revision 1 was evicted: a client that has seen nothing must reload, one that saw it need not.
run_evicts :
    (events_since (run requests (init 2) 0).0 0 ≡ none)
    × (events_since (run requests (init 2) 0).0 1 ≡ some (drop 1 (history requests [])))
    × ((run requests (init 2) 0).1 ≡ 1)
unfolding run init events_since
run_evicts = (refl, refl, refl)

events_since_exact_example :
    events_since (run requests (init 2) 0).0 1 ≡ replayable 2 1 (history requests [])
events_since_exact_example = events_since_exact requests 2 1 0 (omega arith)
