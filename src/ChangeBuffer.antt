-- ===== src/ChangeBuffer.antt =====
-- The revision buffer behind live graph updates: `GraphChangeEvent` and `GraphChangeBuffer` of
-- custom_components/ontology/coordinator.py. `W` is the world that subscriber callbacks act on.
-- A callback returns the world and whether it raised. The clock's reading is an argument, `now`.
-- A callback that re-enters the buffer is not modelled, and revisions that clients send are natural.
pub mod Requests
pub mod History
mod Tests
use hass_ontology_fix.Common.{
  ℕ, suc, ◌+◌, ◌-◌, String, Bool, Option, none, some, List, [], ◌∷◌, ◌++◌, length, drop, filter,
  ltb, if◌then◌else◌,
}
use hass_ontology_fix.Common.Dict.{Dict, insert, erase}

-- The tags that the source writes as texts.
pub data Kind : Type 0 where
  upsert remove reconcile : Kind

pub record GraphChangeEvent : Type 0 where
  pub revision : ℕ
  pub kind : Kind
  pub node_ids : List String
  pub relationship_ids : List String
  pub changed_properties : List String
  pub occurred_at : String

-- A subscriber's callback: the world after it, and whether it raised.
abbrev pub Subscriber : Type 0 → Type 0
Subscriber W = GraphChangeEvent → W → W × Bool

pub record GraphChangeBuffer (W : Type 0) : Type 0 where
  pub max_size : ℕ
  pub revision : ℕ
  pub events : List GraphChangeEvent
  pub subscribers : Dict (Subscriber W)

-- `deque(maxlen=...).append`: the oldest items leave when the deque is over its length.
pub append_bounded : ℕ → List GraphChangeEvent → GraphChangeEvent → List GraphChangeEvent
append_bounded maxlen xs x = let ys = xs ++ x ∷ [] in drop (length ys - maxlen) ys

-- The part of `events_since` below its first test.
pub bridge : ℕ → List GraphChangeEvent → Option (List GraphChangeEvent)
bridge r [] = some []
bridge r (oldest ∷ rest) =
    if ltb r (oldest.revision - 1)
    then none
    else some (filter (λ event. ltb r event.revision) (oldest ∷ rest))

module _ {W : Type 0} where
  unfoldable pub init : ℕ → GraphChangeBuffer W
  init max_size = record { max_size = max_size; revision = 0; events = []; subscribers = [] }

  -- The loop of `_publish`: what a callback raises is dropped.
  unfoldable pub notify : Dict (Subscriber W) → GraphChangeEvent → W → W
  notify [] event w = w
  notify ((_, subscriber) ∷ rest) event w = let (w', _) = subscriber event w in notify rest event w'

  -- `_publish` of an event that carries the next revision.
  unfoldable pub publish : GraphChangeBuffer W → GraphChangeEvent → W → GraphChangeBuffer W × W
  unfolding append_bounded notify
  publish b event w =
      (record b { events = append_bounded b.max_size b.events event }, notify b.subscribers event w)

  -- `_next_revision`: the count is stored before the event is made.
  unfoldable pub next_revision : GraphChangeBuffer W → GraphChangeBuffer W
  next_revision b = record b { revision = b.revision + 1 }

  unfoldable pub publish_upsert :
      List String
      → List String
      → List String
      → String
      → GraphChangeBuffer W
      → W
      → GraphChangeBuffer W × W
  unfolding publish next_revision
  publish_upsert node_ids relationship_ids changed_properties now b w =
      let b' = next_revision b in
      publish b'
        (record {
          revision = b'.revision;
          kind = upsert;
          node_ids = node_ids;
          relationship_ids = relationship_ids;
          changed_properties = changed_properties;
          occurred_at = now;
        })
        w

  unfoldable pub publish_remove :
      List String → List String → String → GraphChangeBuffer W → W → GraphChangeBuffer W × W
  unfolding publish next_revision
  publish_remove node_ids relationship_ids now b w =
      let b' = next_revision b in
      publish b'
        (record {
          revision = b'.revision;
          kind = remove;
          node_ids = node_ids;
          relationship_ids = relationship_ids;
          changed_properties = [];
          occurred_at = now;
        })
        w

  unfoldable pub publish_reconcile : String → GraphChangeBuffer W → W → GraphChangeBuffer W × W
  unfolding publish next_revision
  publish_reconcile now b w =
      let b' = next_revision b in
      publish b'
        (record {
          revision = b'.revision;
          kind = reconcile;
          node_ids = [];
          relationship_ids = [];
          changed_properties = [];
          occurred_at = now;
        })
        w

  unfoldable pub events_since : GraphChangeBuffer W → ℕ → Option (List GraphChangeEvent)
  unfolding bridge
  events_since b r = if ltb b.revision r then none else bridge r b.events

  unfoldable pub subscribe : String → Subscriber W → GraphChangeBuffer W → GraphChangeBuffer W
  subscribe id callback b = record b { subscribers = insert id callback b.subscribers }

  unfoldable pub unsubscribe : String → GraphChangeBuffer W → GraphChangeBuffer W
  unsubscribe id b = record b { subscribers = erase id b.subscribers }
