-- ===== src/Trace/Types.antt =====
-- The nodes, edges and references of trace-arcgis-dependencies.ts.
use dymaxion.Prelude.{ℕ, Text, text, text_eq, Option, Bool, ◌&&◌, ◌++◌, if◌then◌else◌}

pub data Sharing : Type 0 where
  public org shared private unknown : Sharing

pub data Support : Type 0 where
  expandable terminal service_reference missing unfetched : Support

pub data Relationship : Type 0 where
  web_map operational_layer table basemap_layer : Relationship

pub data Locator : Type 0 where
  map_item values_webmap layer_item layer_url table_item table_url basemap_item basemap_url :
      Locator

abbrev pub relationship_name : Relationship → Text
relationship_name web_map = text "web_map"
relationship_name operational_layer = text "operational_layer"
relationship_name table = text "table"
relationship_name basemap_layer = text "basemap_layer"

abbrev pub locator_name : Locator → Text
locator_name map_item = text "map.itemId"
locator_name values_webmap = text "values.webmap"
locator_name layer_item = text "operationalLayers[].itemId"
locator_name layer_url = text "operationalLayers[].url"
locator_name table_item = text "tables[].itemId"
locator_name table_url = text "tables[].url"
locator_name basemap_item = text "baseMap.baseMapLayers[].itemId"
locator_name basemap_url = text "baseMap.baseMapLayers[].url"

-- `MutableNode`; a service has a URL, and an item its identifier.
pub record GraphNode : Type 0 where
  pub id : Text
  pub is_service : Bool
  pub item_id : Option Text
  pub service_url : Option Text
  pub item_type : Option Text
  pub title : Option Text
  pub owner : Option Text
  pub access : Sharing
  pub support : Support
  pub expanded : Bool
  pub depth : ℕ
  pub is_root : Bool

pub record Edge : Type 0 where
  pub from : Text
  pub to : Text
  pub relationship : Relationship
  pub locator : Locator

-- `ParsedReference`: of an item by its identifier, or of a service by its URL
pub record Reference : Type 0 where
  pub is_service : Bool
  pub target : Text
  pub relationship : Relationship
  pub locator : Locator

pub data UnresolvedReason : Type 0 where
  malformed_item_id unparseable_url unsupported_url_scheme credential_bearing_url : UnresolvedReason

-- Of an item's identifier, or of a service's URL
pub record Unresolved : Type 0 where
  pub from : Text
  pub locator : Locator
  pub is_service : Bool
  pub reason : UnresolvedReason

abbrev pub same_edge : Edge → Edge → Bool
same_edge d e =
    text_eq d.from e.from
    && text_eq d.to e.to
    && text_eq (relationship_name d.relationship) (relationship_name e.relationship)
    && text_eq (locator_name d.locator) (locator_name e.locator)

-- `referenceSortKey`
unfoldable pub reference_sort_key : Reference → Text
reference_sort_key r =
    (if r.is_service then text "service " else text "item ")
    ++ (r.target
        ++ (text " " ++ (relationship_name r.relationship ++ (text " " ++ locator_name r.locator))))
