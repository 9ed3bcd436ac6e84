-- ===== src/Mesh.antt =====
-- mesh_sync.py: a scan of the Zigbee mesh writes its snapshot and links, and removes old ones. `errors` is
-- what the client raises at each query, none where it is answered. MQTT is asked by the caller: a scan is
-- given whether it is there and what it answered. Where a query may take any of the rows, the model takes
-- the first. The clock's reading is given as the texts of the scan's times.
pub mod Payload
mod Prune
mod Tests
use hass_ontology_fix.Common.{
  ℕ, zero, suc, ◌+◌, ◌&&◌, ◌||◌, not, String, Bool, true, false, Option, none, some, is_some, List,
  [], ◌∷◌, any, filter, length, ltb, str_eq, if◌then◌else◌,
}
use hass_ontology_fix.Common.Codes.{codes}
use hass_ontology_fix.Common.Errors.{Exception, Result, ok, err, Action, ◌>>=◌, ◌>>◌, pure}
use hass_ontology_fix.Common.Json.{Json}
use hass_ontology_fix.GraphBuilder.{chunks}
use hass_ontology_fix.GraphBuilder.Registry.{is_before}
use hass_ontology_fix.Mesh.Payload.{
  Extracted, extract_links, coordinator_ieee, Identifier, Addresses, ieee_to_device_ids, LinkRow,
  link_rows,
}

pub record MeshSnapshot : Type 0 where
  pub id : String
  pub scanned_at : String

-- A link with the ends of its relationships, of which it has one of a type: its id names its snapshot. The
-- properties that no query reads are left out.
pub record HeldLink : Type 0 where
  pub ha_id : String
  pub relationship : Option String
  pub snapshot : Option String
  pub from_device : Option String
  pub to_device : Option String

pub record MeshGraph : Type 0 where
  pub snapshots : List MeshSnapshot
  pub links : List HeldLink
  pub devices : String → Bool
  pub sent : ℕ

abbrev pub write_batch_size : ℕ
write_batch_size = 250

abbrev pub max_prune_batches : ℕ
max_prune_batches = 200

abbrev put_snapshot : MeshSnapshot → List MeshSnapshot → List MeshSnapshot
put_snapshot s [] = s ∷ []
put_snapshot s (t ∷ rest) =
    let others = put_snapshot s rest in if str_eq t.id s.id then s ∷ rest else t ∷ others

abbrev change_link : String → (HeldLink → HeldLink) → List HeldLink → List HeldLink
change_link id change [] = []
change_link id change (l ∷ links) =
    let rest = change_link id change links in (if str_eq l.ha_id id then change l else l) ∷ rest

abbrev or_snapshot : Option String → Option String → Option String
or_snapshot none old = old
or_snapshot (some s) old = some s

abbrev put_link : Option String → LinkRow → List HeldLink → List HeldLink
put_link snapshot row [] =
    record {
      ha_id = row.ha_id;
      relationship = row.relationship;
      snapshot = snapshot;
      from_device = none;
      to_device = none;
    }
    ∷ []
put_link snapshot row (l ∷ links) =
    let rest = put_link snapshot row links in
    if str_eq l.ha_id row.ha_id
    then record l { relationship = row.relationship; snapshot = or_snapshot snapshot l.snapshot }
      ∷ links
    else l ∷ rest

abbrev put_links : Option String → List LinkRow → List HeldLink → List HeldLink
put_links snapshot [] links = links
put_links snapshot (row ∷ rows) links = put_links snapshot rows (put_link snapshot row links)

abbrev known_snapshot : String → List MeshSnapshot → Option String
known_snapshot id snapshots = if any (λ s. str_eq s.id id) snapshots then some id else none

abbrev known_device : (String → Bool) → Option String → Option String
known_device devices none = none
known_device devices (some id) = if devices id then some id else none

-- `_device_edge_query`, for either end: a device that is not there matches nothing
abbrev put_edges :
    (LinkRow → Option String)
    → (String → HeldLink → HeldLink)
    → List LinkRow
    → MeshGraph
    → MeshGraph
put_edges key change [] g = g
put_edges key change (row ∷ rows) g =
    put_edges key change rows (put_end (known_device g.devices (key row)) change row g)
  where
    put_end : Option String → (String → HeldLink → HeldLink) → LinkRow → MeshGraph → MeshGraph
    put_end none set r h = h
    put_end (some id) set r h = record h { links = change_link r.ha_id (set id) h.links }

abbrev pub is_tree : String → Bool
is_tree relationship = str_eq relationship "0" || str_eq relationship "1"

abbrev is_non_tree : Option String → Bool
is_non_tree none = false
is_non_tree (some relationship) = not (is_tree relationship)

abbrev is_of_other : String → Option String → Bool
is_of_other newest none = false
is_of_other newest (some snapshot) = not (str_eq snapshot newest)

-- What `_async_prune_history_siblings` deletes.
abbrev pub is_history : String → HeldLink → Bool
is_history newest l = is_of_other newest l.snapshot && is_non_tree l.relationship

abbrev pub delete_first : (HeldLink → Bool) → ℕ → List HeldLink → List HeldLink
delete_first p n [] = []
delete_first p zero (l ∷ links) = l ∷ links
delete_first p (suc n) (l ∷ links) =
    let fewer = delete_first p n links in
    let rest = delete_first p (suc n) links in if p l then fewer else l ∷ rest

abbrev pub at_most : ℕ → ℕ → ℕ
at_most limit n = if ltb limit n then limit else n

-- The query of a batch: how many links it deletes, and the links that are left.
abbrev pub prune_query : String → MeshGraph → ℕ × MeshGraph
prune_query newest g = (
  at_most write_batch_size (length (filter (is_history newest) g.links)),
  record g { links = delete_first (is_history newest) write_batch_size g.links },
)

abbrev is_old : String → MeshSnapshot → Bool
is_old cutoff s = is_before (codes s.scanned_at) (codes cutoff)

abbrev is_within : List MeshSnapshot → Option String → Bool
is_within snapshots none = false
is_within snapshots (some id) = any (λ s. str_eq s.id id) snapshots

-- The query of `_async_prune_old_snapshots`.
abbrev prune_old : String → MeshGraph → MeshGraph
prune_old cutoff g = record g {
  snapshots = filter (λ s. not (is_old cutoff s)) g.snapshots;
  links = filter (λ l. not (is_within (filter (is_old cutoff) g.snapshots) l.snapshot)) g.links;
}

abbrev pub answer_query :
    {A : Type 0} → Option Exception → (MeshGraph → A × MeshGraph) → Action MeshGraph A
answer_query none query g = let (a, g') = query g in (ok a, g')
answer_query (some e) query g = (err e, g)

abbrev lift : {A : Type 0} → Result A → Action MeshGraph A
lift r g = (r, g)

-- What a scan is given: the answer of MQTT, its times, the settings and the devices' identifiers.
pub record Scan : Type 0 where
  pub mqtt_available : Bool
  pub payload : Option Json
  pub snapshot_id : String
  pub scanned_at : String
  pub cutoff : String
  pub identifiers : List Identifier
  pub coordinator_device_id : Option String
  pub keep_sibling_history : Bool

abbrev with_coordinator : Option (List ℕ) → Option String → Addresses → Addresses
with_coordinator (some address) (some id) addresses = (address, id) ∷ addresses
with_coordinator _ _ addresses = addresses

module _ (errors : ℕ → Option Exception) where
  unfoldable pub send : {A : Type 0} → (MeshGraph → A × MeshGraph) → Action MeshGraph A
  send query g = answer_query (errors g.sent) query (record g { sent = suc g.sent })

  -- A query without rows is not sent.
  abbrev send_edges :
      (LinkRow → Option String)
      → (String → HeldLink → HeldLink)
      → List LinkRow
      → Action MeshGraph (Unit {0})
  send_edges key change [] = pure tt
  send_edges key change (row ∷ rows) = send (λ g. (tt, put_edges key change (row ∷ rows) g))

  -- `_async_write_link_batch`
  unfoldable pub write_link_batch : String → List LinkRow → Action MeshGraph (Unit {0})
  unfolding send
  write_link_batch snapshot_id rows = do
    send (λ g.
        (tt, record g { links = put_links (known_snapshot snapshot_id g.snapshots) rows g.links }))
    send_edges (λ r. r.from_device_id) (λ id l. record l { from_device = some id })
        (filter (λ r. is_some r.from_device_id) rows)
    send_edges (λ r. r.to_device_id) (λ id l. record l { to_device = some id })
        (filter (λ r. is_some r.to_device_id) rows)

  unfoldable pub write_link_batches : String → List (List LinkRow) → Action MeshGraph (Unit {0})
  unfolding write_link_batch
  write_link_batches snapshot_id [] = pure tt
  write_link_batches snapshot_id (batch ∷ rest) =
      write_link_batch snapshot_id batch >> write_link_batches snapshot_id rest

  -- The loop of `_async_prune_history_siblings`, over so many batches.
  unfoldable pub prune_batches : ℕ → String → ℕ → Action MeshGraph ℕ
  unfolding send
  prune_batches zero newest total = pure total
  prune_batches (suc n) newest total = do
    deleted ← send (prune_query newest)
    (if ltb deleted write_batch_size
        then pure (total + deleted)
        else prune_batches n newest (total + deleted))

  unfoldable pub prune_history_siblings : String → Action MeshGraph ℕ
  unfolding prune_batches
  prune_history_siblings newest = prune_batches max_prune_batches newest 0

  abbrev prune_unless : Bool → String → Action MeshGraph (Unit {0})
  prune_unless true newest = pure tt
  prune_unless false newest = prune_history_siblings newest >> pure tt

  abbrev scan_payload : Scan → Option Json → Action MeshGraph ℕ
  scan_payload scan none = pure 0
  scan_payload scan (some payload) = do
    extracted ← lift (extract_links payload)
    let snapshot : MeshSnapshot = record { id = scan.snapshot_id; scanned_at = scan.scanned_at }
    send (λ g. (tt, record g { snapshots = put_snapshot snapshot g.snapshots }))
    coordinator ← lift (coordinator_ieee payload)
    let addresses =
        with_coordinator coordinator scan.coordinator_device_id
          (ieee_to_device_ids scan.identifiers [])
    rows ← lift (link_rows scan.snapshot_id extracted.names addresses extracted.links)
    write_link_batches scan.snapshot_id (chunks rows)
    send (λ g. (tt, prune_old scan.cutoff g))
    prune_unless scan.keep_sibling_history scan.snapshot_id
    pure (length rows)

  -- `async_scan_zigbee_mesh`, which returns the number of links
  unfoldable pub async_scan_zigbee_mesh : Scan → Action MeshGraph ℕ
  unfolding write_link_batches prune_history_siblings extract_links coordinator_ieee
      ieee_to_device_ids link_rows
  async_scan_zigbee_mesh scan =
      if scan.mqtt_available then scan_payload scan scan.payload else pure 0
