-- ===== src/ArcGis/Samples.antt =====
-- A server whose reply to a URL is the object that a table has under its text, and where everything
-- may be reached.
use dymaxion.Prelude.{
  ℕ, Text, text, starts_with, some, true, false, if◌then◌else◌, List, [], ◌∷◌, lookup, length,
}
use dymaxion.Prelude.Int.{pos}
use dymaxion.Boundary.Url.{Url, BoundaryConfig, Network}
use dymaxion.ArcGis.Json.{Json, Items, nil, cons, Fields, end, field, whole, object, array}
use dymaxion.ArcGis.Session.{Outside, Session, response}
use dymaxion.ArcGis.Rest.{Target}

abbrev parsed : Text → Url
parsed t = record {
  protocol = text "https:";
  username = [];
  password = [];
  hostname = text "gis.org";
  href = t;
}

abbrev open_config : BoundaryConfig
open_config = record {
  url_patterns = text "*" ∷ [];
  denied_hostnames = [];
  audit_all_external_requests = false;
}

abbrev open_network : Network
open_network = record {
  parse_url = λ t. some (parsed t);
  is_ip = λ t. if starts_with t (text "93.") then 4 else 0;
  resolve_host = λ t. text "93.184.216.34" ∷ [];
}

abbrev pub server : List (Text × Json) → Outside
server table = record {
  config = open_config;
  network = λ n. open_network;
  reply = λ n request. response 200 (some (text "application/json")) request.url;
  supports_post = true;
  now = λ n. n;
  aborted = λ n. false;
  sha256 = λ t. t;
  byte_length = λ t. length t;
  parse_json = λ t. lookup t table;
}

abbrev pub session : Session
session = record {
  ticks = 0;
  dispatched = [];
  audit = [];
  budget = record {
    deadline = 5_000;
    bytes_used = 0;
    request_count = 0;
    max_requests = 9;
    max_response_bytes = 100;
    max_total_bytes = 1_000;
  };
  requests = [];
}

abbrev pub at : Text → Target
at t = record { href = t; search = []; hash = [] }

-- Objects and arrays from lists
abbrev pub fields : List (Text × Json) → Fields
fields [] = end
fields ((k, v) ∷ kvs) = field k v (fields kvs)

abbrev pub obj : List (Text × Json) → Json
obj kvs = object (fields kvs)

abbrev pub items : List Json → Items
items [] = nil
items (v ∷ vs) = cons v (items vs)

abbrev pub arr : List Json → Json
arr vs = array (items vs)

abbrev pub number : ℕ → Json
number n = whole (pos n)
