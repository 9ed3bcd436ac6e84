-- ===== src/Presentation/Available.antt =====
-- The panel always gets a reply, and the gateway's diagnostics tell how the last call went.
use hass_ontology_fix.Common.{
  suc, ◌+◌, length, ◌≡◌, refl, ap, ◌∙◌, Bool, Option, is_some, not, List, [], ◌∷◌, arith,
}
use hass_ontology_fix.Common.Errors.{Result, ok, err, is_ok}
use hass_ontology_fix.Presentation.Gateway.{
  PanelRequest, GraphBackend, Gateway, note_result, call_backend, serve, serve_each,
}

-- What the backend returned for the last of the requests, and true if there was none.
abbrev pub last_succeeds : {W R : Type 0} → GraphBackend W R → List PanelRequest → Bool → W → Bool
last_succeeds backend [] before w = before
last_succeeds backend (request ∷ requests) before w =
    let (r, w') = backend.operation request w in last_succeeds backend requests (is_ok r) w'

-- The error category is set exactly while the gateway is not available.
abbrev pub IsConsistent : Gateway → Type 0
IsConsistent g = is_some g.last_error_category ≡ not g.available

note_available :
    {R : Type 0} (r : Result (Option R)) (g : Gateway)
    → ((note_result r g).1.available ≡ is_ok r)
      × IsConsistent (note_result r g).1
      × ((note_result r g).1.request_count ≡ g.request_count)
note_available (ok r) g = (refl, refl, refl)
note_available (err e) g = (refl, refl, refl)

module _ {W R : Type 0} (backend : GraphBackend W R) where
  -- After any requests the panel has a reply to each, whatever the backend raised. The gateway has counted
  -- them, it is available exactly if the last call succeeded, and its error category is set exactly if not.
  pub serve_each_exact :
      (requests : List PanelRequest) (g : Gateway) (w : W)
      → IsConsistent g
      → let ((replies, g'), w') = serve_each backend requests g w in
        (length replies ≡ length requests)
        × (g'.request_count ≡ g.request_count + length requests)
        × (g'.available ≡ last_succeeds backend requests g.available w)
        × IsConsistent g'
  unfolding serve_each serve call_backend
  serve_each_exact [] g w h = (refl, omega arith, refl, h)
  serve_each_exact (request ∷ requests) g w h =
      let step = backend.operation request w in
      let counted = record g { request_count = suc g.request_count } in
      let (a, c, n) = note_available step.0 counted in
      let (l, k, v, i) = serve_each_exact requests (note_result step.0 counted).1 step.1 c in
      (
        omega (arith, l),
        omega (arith, k, n),
        v ∙ ap (λ b. last_succeeds backend requests b step.1) a,
        i,
      )
