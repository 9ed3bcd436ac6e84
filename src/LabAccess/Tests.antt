-- ===== src/LabAccess/Tests.antt =====
-- An endpoint that answers, and one whose answer has no capability.
use hass_ontology_fix.Common.{ℕ, suc, ◌≡◌, refl, false, some}
use hass_ontology_fix.Common.Errors.{ok}
use hass_ontology_fix.Common.Json.{Json, Fields}
use hass_ontology_fix.LabAccess.{Lab, Endpoint, init_lab, no_capability, get_capability}

abbrev answering : Json → Endpoint ℕ
answering body = record { post = λ url token w. (ok body, suc w); monotonic = λ w. w }

abbrev lab : Lab
lab = init_lab (some "http://addon") (some "t") false

-- A null in place of the capability counts as a failure of the transport.
null_fails :
    let ((capability, after), w) =
      get_capability
        (answering (
          Json.object (
            Fields.field "data"
              (Json.object (Fields.field "labCapability" Json.null Fields.end))
              Fields.end)))
        lab
        3 in
    (capability ≡ no_capability "TRANSPORT_UNAVAILABLE") × (after.probe_duration ≡ some 1)
unfolding get_capability
null_fails = (refl, refl)
