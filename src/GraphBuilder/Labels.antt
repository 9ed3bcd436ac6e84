-- ===== src/GraphBuilder/Labels.antt =====
-- The labels and relationship types of const.py that the builder writes.
use hass_ontology_fix.Common.{String}

abbrev pub label_home : String
label_home = "Home"

abbrev pub label_floor : String
label_floor = "Floor"

abbrev pub label_area : String
label_area = "Area"

abbrev pub label_device : String
label_device = "Device"

abbrev pub label_entity : String
label_entity = "Entity"

abbrev pub label_domain : String
label_domain = "Domain"

abbrev pub label_integration : String
label_integration = "Integration"

abbrev pub label_label : String
label_label = "Label"

abbrev pub label_automation : String
label_automation = "Automation"

abbrev pub label_scene : String
label_scene = "Scene"

abbrev pub label_script : String
label_script = "Script"

abbrev pub label_ontology_schema : String
label_ontology_schema = "OntologySchema"

abbrev pub rel_has_area : String
rel_has_area = "HAS_AREA"

abbrev pub rel_has_floor : String
rel_has_floor = "HAS_FLOOR"

abbrev pub rel_on_floor : String
rel_on_floor = "ON_FLOOR"

abbrev pub rel_has_device : String
rel_has_device = "HAS_DEVICE"

abbrev pub rel_has_entity : String
rel_has_entity = "HAS_ENTITY"

abbrev pub rel_in_domain : String
rel_in_domain = "IN_DOMAIN"

abbrev pub rel_provided_by : String
rel_provided_by = "PROVIDED_BY"

abbrev pub rel_has_label : String
rel_has_label = "HAS_LABEL"

abbrev pub rel_references : String
rel_references = "REFERENCES"

abbrev pub rel_controls : String
rel_controls = "CONTROLS"

abbrev pub home_singleton_id : String
home_singleton_id = "home"

abbrev pub schema_singleton_id : String
schema_singleton_id = "home_assistant_ontology"

abbrev pub source_home_assistant : String
source_home_assistant = "home_assistant"

abbrev pub source_generated : String
source_generated = "generated"
