-- ===== src/Presentation/Gateway.antt =====
-- graph_gateway.py: the gateway between the panel and the selected backend. A backend's reply is none when
-- Python takes it for false, that is for `None` and an empty dictionary.
use hass_ontology_fix.Common.{ℕ, suc, String, Bool, true, false, Option, none, some, List, [], ◌∷◌}
use hass_ontology_fix.Common.Errors.{Result, ok, err, Action}

pub data PanelRequest : Type 0 where
  initial_graph : ℕ → Option String → PanelRequest
  expand_node : String → ℕ → ℕ → Option String → PanelRequest
  search_graph : String → ℕ → PanelRequest
  graph_element : String → PanelRequest
  graph_health : PanelRequest

-- The call of the backend's method of that name, with these arguments.
pub record GraphBackend (W R : Type 0) : Type 0 where
  pub name : String
  pub operation : PanelRequest → Action W (Option R)

-- What the panel gets: the backend's reply, or what stands for it.
pub data Reply (R : Type 0) : Type 0 where
  found_reply : R → Reply R
  no_graph no_matches no_element unknown_health : Reply R

pub record Gateway : Type 0 where
  pub available : Bool
  pub last_error_category : Option String
  pub request_count : ℕ

abbrev pub init_gateway : Gateway
init_gateway = record { available = true; last_error_category = none; request_count = 0 }

-- `a or {...}`
abbrev pub stand_in : {R : Type 0} → PanelRequest → Reply R
stand_in (initial_graph limit after) = no_graph
stand_in (expand_node id node_limit edge_limit after) = no_graph
stand_in (search_graph term limit) = no_matches
stand_in (graph_element id) = no_element
stand_in graph_health = unknown_health

abbrev pub or_stand_in : {R : Type 0} → PanelRequest → Option R → Reply R
or_stand_in request none = stand_in request
or_stand_in request (some r) = found_reply r

abbrev pub note_result : {R : Type 0} → Result (Option R) → Gateway → Option R × Gateway
note_result (ok r) g = (r, record g { available = true; last_error_category = none })
note_result (err e) g =
    (none, record g { available = false; last_error_category = some "gateway_unavailable" })

module _ {W R : Type 0} (backend : GraphBackend W R) where
  -- `_call`
  unfoldable pub call_backend : PanelRequest → Gateway → W → (Option R × Gateway) × W
  call_backend request g w =
      let (r, w') = backend.operation request w in
      (note_result r (record g { request_count = suc g.request_count }), w')

  -- The method of the gateway for the request.
  unfoldable pub serve : PanelRequest → Gateway → W → (Reply R × Gateway) × W
  unfolding call_backend
  serve request g w =
      let ((r, g'), w') = call_backend request g w in ((or_stand_in request r, g'), w')

  unfoldable pub serve_each : List PanelRequest → Gateway → W → (List (Reply R) × Gateway) × W
  unfolding serve
  serve_each [] g w = (([], g), w)
  serve_each (request ∷ requests) g w =
      let ((r, g'), w') = serve request g w in
      let ((rs, g''), w'') = serve_each requests g' w' in ((r ∷ rs, g''), w'')

-- `create_graph_backend`: whether the add-on is selected, by its trimmed address and token.
unfoldable pub selects_addon : String → String → Bool
selects_addon String.[] token = false
selects_addon (String.◌∷◌ c s) String.[] = false
selects_addon (String.◌∷◌ c s) (String.◌∷◌ d t) = true
