-- ===== src/ChangeBuffer/Requests.antt =====
-- What a client can ask of the buffer, the history that its requests make, with nothing evicted, and
-- what a client that has seen some of it is owed.
use hass_ontology_fix.Common.{
  ℕ, ◌+◌, String, none, some, Option, List, [], ◌∷◌, ◌++◌, length, drop, ltb, if◌then◌else◌,
}
use hass_ontology_fix.ChangeBuffer
use hass_ontology_fix.ChangeBuffer.{
  Kind, GraphChangeEvent, GraphChangeBuffer, Subscriber, publish_upsert, publish_remove,
  publish_reconcile,
}

-- The operations that a client of the buffer has, with the clock's reading.
pub data Request (W : Type 0) : Type 0 where
  upsert : List String → List String → List String → String → Request W
  remove : List String → List String → String → Request W
  reconcile : String → Request W
  subscribe : String → Subscriber W → Request W
  unsubscribe : String → Request W

unfoldable pub perform :
    {W : Type 0} → Request W → GraphChangeBuffer W → W → GraphChangeBuffer W × W
unfolding publish_upsert publish_remove publish_reconcile ChangeBuffer.subscribe
    ChangeBuffer.unsubscribe
perform (upsert n r p now) b w = publish_upsert n r p now b w
perform (remove n r now) b w = publish_remove n r now b w
perform (reconcile now) b w = publish_reconcile now b w
perform (subscribe id f) b w = (ChangeBuffer.subscribe id f b, w)
perform (unsubscribe id) b w = (ChangeBuffer.unsubscribe id b, w)

-- The history that a request adds to: every event ever published, with nothing evicted.
abbrev pub event : Kind → List String → List String → List String → String → ℕ → GraphChangeEvent
event kind nodes rels props now n = record {
  revision = n;
  kind = kind;
  node_ids = nodes;
  relationship_ids = rels;
  changed_properties = props;
  occurred_at = now;
}

abbrev pub extend : {W : Type 0} → Request W → List GraphChangeEvent → List GraphChangeEvent
extend (upsert n r p now) h = h ++ event Kind.upsert n r p now (length h + 1) ∷ []
extend (remove n r now) h = h ++ event Kind.remove n r [] now (length h + 1) ∷ []
extend (reconcile now) h = h ++ event Kind.reconcile [] [] [] now (length h + 1) ∷ []
extend (subscribe id f) h = h
extend (unsubscribe id) h = h

unfoldable pub run :
    {W : Type 0} → List (Request W) → GraphChangeBuffer W → W → GraphChangeBuffer W × W
unfolding perform
run [] b w = (b, w)
run (q ∷ qs) b w = let (b', w') = perform q b w in run qs b' w'

abbrev pub history : {W : Type 0} → List (Request W) → List GraphChangeEvent → List GraphChangeEvent
history [] h = h
history (q ∷ qs) h = history qs (extend q h)

-- What a client that has seen the revisions up to `r` is owed of the history `h`.
abbrev pub replayable : ℕ → ℕ → List GraphChangeEvent → Option (List GraphChangeEvent)
replayable m r h =
    if ltb (length h) r then none else if ltb (r + m) (length h) then none else some (drop r h)
