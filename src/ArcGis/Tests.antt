-- ===== src/ArcGis/Tests.antt =====
-- Two pages from a server, for the definitions of arcgis-rest.ts.
use dymaxion.Prelude.{
  ◌+◌, ◌≡◌, refl, Text, text, text_eq, starts_with, none, some, false, [], ◌∷◌, ok, lookup,
}
use dymaxion.Prelude.Int.{negsuc}
use dymaxion.Boundary.Glob.{glob_match, after_star, lower, is_hostname_denied, is_line_end}
use dymaxion.Boundary.Url.{
  assert_url_allowed, check_url, check_addresses, is_private_address, is_private_v4, octets,
  without_dot, ends_local,
}
use dymaxion.ArcGis.Json.{Json, whole, end, get, items_of}
use dymaxion.ArcGis.Session.{
  Outside, Evidence, throw_if_aborted, request_timeout_ms, request_max_bytes,
}
use dymaxion.ArcGis.Rest.{
  Options, includes, judge, check_form, check_boundary, send, request_arcgis_json,
}
use dymaxion.ArcGis.Guard.{IsGuarded, request_arcgis_json-IsSafe}
use dymaxion.ArcGis.Replies.{IsSound}
use dymaxion.ArcGis.Pages.{
  Pagination, Paginated, paginate_arcgis, paginate, request_page, take_page, conclude,
  parse_arcgis_page_envelope, objects_of,
}
use dymaxion.ArcGis.PageLaws.{IsHonest, paginate_arcgis-IsHonest}
use dymaxion.ArcGis.Samples.{server, session, at, obj, arr, number}

abbrev items_page : Json → Json
items_page next =
    obj (
      (text "results", arr (obj [] ∷ []))
      ∷ (text "total", number 2)
      ∷ (text "nextStart", next)
      ∷ [])

abbrev two_pages : Outside
two_pages =
    server ((text "p1", items_page (number 2)) ∷ (text "p2", items_page (whole (negsuc 0))) ∷ [])

abbrev first_options : Options
first_options = record {
  name = text "items";
  url = at (text "p1");
  timeout_ms = 100;
  max_bytes = 50;
  authorization = none;
  form = none;
}

request_arcgis_json-IsSafe_example :
    IsGuarded two_pages first_options session (request_arcgis_json two_pages first_options session)
    × IsSound two_pages first_options (request_arcgis_json two_pages first_options session).0
request_arcgis_json-IsSafe_example = request_arcgis_json-IsSafe two_pages first_options session

abbrev pagination : Pagination
pagination = record {
  page_name = λ n. text "items";
  build_url = λ start num. at (b'p' ∷ (b'0' + start) ∷ []);
  records_key = text "results";
  page_size = 1;
  max_records = 5;
  max_pages = 4;
}

abbrev evidence : Text → Evidence
evidence url = record {
  name = text "items";
  url = url;
  status = 200;
  sha256 = url;
  bytes = 2;
  request_sha256 = none;
}

abbrev both : Paginated
both = record {
  records = end ∷ end ∷ [];
  total_reported = some 2;
  pages = 2;
  truncated = false;
  reasons = [];
  requests = evidence (text "p1") ∷ evidence (text "p2") ∷ [];
}

two_pages_result : (paginate_arcgis pagination two_pages session).0 ≡ ok both
unfolding paginate_arcgis paginate request_page take_page conclude parse_arcgis_page_envelope
    objects_of request_timeout_ms request_max_bytes request_arcgis_json throw_if_aborted check_form
    check_boundary send judge includes get items_of lookup text_eq starts_with assert_url_allowed
    check_url check_addresses is_private_address is_private_v4 octets without_dot ends_local lower
    glob_match after_star is_line_end is_hostname_denied
two_pages_result = refl

paginate_arcgis-IsHonest_example : IsHonest pagination both
paginate_arcgis-IsHonest_example =
    paginate_arcgis-IsHonest pagination two_pages session both two_pages_result
