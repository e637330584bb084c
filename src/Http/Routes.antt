-- ===== src/Http/Routes.antt =====
-- internal/transport/http/routes.go and middleware.go: the routes, what their handlers reply, and the
-- entry that the access log gets. The selection of a pattern and the file server are net/http's.
use mafia_game_party.Prelude.{ℕ, List, [], ◌∷◌, String}

pub data Handler : Type 0 where
  health upgrade api_results assets audio spa : Handler

-- `buildMux`: the patterns with their handlers
abbrev pub routes : List (String × Handler)
routes =
    ("GET /healthz", Handler.health)
    ∷ ("GET /ws", Handler.upgrade)
    ∷ ("GET /api/results", Handler.api_results)
    ∷ ("GET /assets/", Handler.assets)
    ∷ ("GET /audio/", Handler.audio)
    ∷ ("GET /", Handler.spa)
    ∷ []

-- A text with its status and headers, or a file that net/http serves after the headers are set.
pub data Reply : Type 0 where
  text : ℕ → List (String × String) → String → Reply
  file : List (String × String) → String → Reply

abbrev pub health_handler : Reply
health_handler = Reply.text 200 (("Content-Type", "text/plain; charset=utf-8") ∷ []) "ok"

abbrev pub assets_handler : String → Reply
assets_handler path =
    Reply.file (("Cache-Control", "public, max-age=31536000, immutable") ∷ []) path

abbrev pub audio_handler : String → Reply
audio_handler path = Reply.file (("Cache-Control", "public, max-age=86400") ∷ []) path

-- How far the index page can be read.
pub data Index : Type 0 where
  not_opened no_info not_seekable readable : Index

abbrev http_error : ℕ → String → Reply
http_error status message = Reply.text status [] message

unfoldable pub spa_handler : Index → Reply
spa_handler Index.not_opened = http_error 503 "frontend not built"
spa_handler Index.no_info = http_error 500 "internal error"
spa_handler Index.not_seekable = http_error 500 "internal error"
spa_handler Index.readable =
    Reply.file (("Content-Type", "text/html; charset=utf-8") ∷ ("Cache-Control", "no-cache") ∷ [])
      "index.html"

-- `statusRecorder` through the `WriteHeader` calls of a handler: it keeps the last status.
unfoldable pub recorded : ℕ → List ℕ → ℕ
recorded status [] = status
recorded status (code ∷ codes) = recorded code codes

pub record LogEntry : Type 0 where
  pub method : String
  pub path : String
  pub status : ℕ
  pub duration_ms : ℕ

-- `loggingMiddleware`: the query, the headers and the body are not in the entry.
unfoldable pub logging_middleware : String → String → List ℕ → ℕ → LogEntry
logging_middleware method path codes duration = record {
  method = method;
  path = path;
  status = recorded 200 codes;
  duration_ms = duration;
}
