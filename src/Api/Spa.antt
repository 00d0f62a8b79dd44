-- ===== src/Api/Spa.antt =====
-- `SpaStaticFiles` of app/main.py. `serve` is `StaticFiles.get_response`, which answers with a status
-- code and a body or raises an HTTPException with a status code.
use langgraph_temporal_agent.Prelude.{ℕ, if◌then◌else◌, ◌==◌}
use langgraph_temporal_agent.Text.{Text, codes}

pub data Served (A : Type 0) : Type 0 where
  response : (status_code : ℕ) → A → Served A
  http_exception : (status_code : ℕ) → Served A

-- The second call, for index.html, is made only where the first is a 404.
unfoldable pub after_first : {A : Type 0} → (Text → Served A) → Served A → Served A
after_first serve (http_exception status_code) =
    if status_code == 404 then serve (codes "index.html") else http_exception status_code
after_first serve (response status_code body) =
    if status_code == 404 then serve (codes "index.html") else response status_code body

unfoldable pub get_response : {A : Type 0} → (Text → Served A) → Text → Served A
unfolding after_first
get_response serve path = after_first serve (serve path)
