-- ===== src/Web/Routes.antt =====
-- The set-up of the server in main/web/web_server.c: which handler answers which request.
use esp32_deskflow.Prelude.{
  ℕ, ◌≡◌, refl, ltb, Bool, true, false, ◌&&◌, not, List, [], ◌∷◌, ◌++◌, length, memcmp_eq,
  if◌then◌else◌, Option, none, some, codes,
}
use esp32_deskflow.Esp.{EspErr, esp_ok, is_ok}

pub data Method : Type 0 where
  get post : Method

abbrev same_method : Method → Method → Bool
same_method get get = true
same_method post post = true
same_method _ _ = false

-- The handlers, by what they answer.
pub data Handler : Type 0 where
  index_page settings_get settings_post reboot cert_upload uart_write uart_read uart_page : Handler
  uart_ws log_ws log_page log_level : Handler

-- `httpd_uri_t`
pub record Route : Type 0 where
  pub uri : List ℕ
  pub method : Method
  pub handler : Handler
  pub is_websocket : Bool

-- The handler of a request; none is answered by the server with an error.
abbrev pub answered_by : Method → List ℕ → List Route → Option Handler
answered_by method uri [] = none
answered_by method uri (r ∷ routes) =
    let rest = answered_by method uri routes in
    if memcmp_eq r.uri uri && same_method r.method method then some r.handler else rest

-- `httpd_register_uri_handler`, which refuses a route that is there and one above the number of handlers.
abbrev pub registered : ℕ → Route → List Route → List Route
registered max_uri_handlers r routes = elim (answered_by r.method r.uri routes) [
  | none ↦ if ltb (length routes) max_uri_handlers then routes ++ r ∷ [] else routes
  | some _ ↦ routes
]

abbrev pub all_registered : ℕ → List Route → List Route → List Route
all_registered max_uri_handlers [] routes = routes
all_registered max_uri_handlers (r ∷ rest) routes =
    all_registered max_uri_handlers rest (registered max_uri_handlers r routes)

abbrev pub plain : List ℕ → Method → Handler → Route
plain uri method handler = record {
  uri = uri;
  method = method;
  handler = handler;
  is_websocket = false;
}

abbrev pub websocket : List ℕ → Handler → Route
websocket uri handler = record { uri = uri; method = get; handler = handler; is_websocket = true }

-- The routes in the order in which they are registered, with whether the server supports web sockets.
abbrev pub all_routes : Bool → List Route
all_routes with_websockets =
    plain (codes "/") get index_page
    ∷ plain (codes "/api/settings") get settings_get
    ∷ plain (codes "/api/settings") post settings_post
    ∷ plain (codes "/api/reboot") post reboot
    ∷ plain (codes "/api/cert") post cert_upload
    ∷ plain (codes "/api/uart/write") post uart_write
    ∷ plain (codes "/api/uart/read") post uart_read
    ∷ plain (codes "/uart") get uart_page
    ∷ ((if with_websockets
          then websocket (codes "/api/uart/ws") uart_ws
            ∷ websocket (codes "/api/log/ws") log_ws
            ∷ []
          else [])
        ++ (plain (codes "/log") get log_page
            ∷ plain (codes "/api/log/level") post log_level
            ∷ plain (codes "/api/log/level") get log_level
            ∷ []))

-- `web_server_start`, with the result of httpd_start.
unfoldable pub web_server_start : Bool → EspErr → EspErr × List Route
web_server_start with_websockets started =
    if not (is_ok started)
    then (started, [])
    else (esp_ok, all_registered 13 (all_routes with_websockets) [])

-- Every route is taken: their number is at most that of the handlers, and no two are for the same request.
web_server_start_whole :
    (with_websockets : Bool)
    → web_server_start with_websockets esp_ok ≡ (esp_ok, all_routes with_websockets)
unfolding web_server_start
web_server_start_whole true = refl
web_server_start_whole false = refl

-- What the button of the settings page asks for has no handler.
reboot_unanswered :
    (with_websockets : Bool)
    → answered_by get (codes "/api/reboot") (web_server_start with_websockets esp_ok).1 ≡ none
unfolding web_server_start
reboot_unanswered true = refl
reboot_unanswered false = refl
