-- ===== src/Proxy/Handler/Pages.antt =====
-- internal/proxy/handler.go and demo.go: the pages that the root handler writes itself. The embedded
-- HTML and strconv.Itoa are parameters.
use turnike.Common.{
  ℕ, ◌++◌, Bool, true, false, Option, none, some, List, [], ◌∷◌, length, Text, text_eq, text_eq_iff,
  codes, ◌≡◌, ◌≢◌, ◌↔◌, ◌⊎◌, inl, inr, refl, arith,
}
use turnike.Config.{Server}
use turnike.Proxy.Handler.{
  Served, demo_page, metrics_page, proxied, method_not_allowed, text, dispatch, ready, reserved,
  IsReserved,
}

-- A response's status, the header fields that were set, and its body.
pub record Page : Type 0 where
  pub status : ℕ
  pub headers : List (Text × Text)
  pub body : Text

-- writeText, after what was set before.
abbrev pub write_text : List (Text × Text) → ℕ → Text → Page
write_text set status body = record {
  status = status;
  headers = set ++ (codes "Content-Type", codes "text/plain; charset=utf-8") ∷ [];
  body = body ++ b'\n' ∷ [];
}

abbrev pub serve_demo_page : (ℕ → Text) → Text → Page
serve_demo_page itoa html = record {
  status = 200;
  headers =
      (codes "Content-Type", codes "text/html; charset=utf-8")
      ∷ (codes "Content-Length", itoa (length html))
      ∷ (codes "Cache-Control", codes "no-cache")
      ∷ [];
  body = html;
}

-- The page of a branch, if it is not the metrics handler's or the gateway's.
unfoldable pub page_of : (ℕ → Text) → Text → Served → Option Page
page_of itoa html demo_page = some (serve_demo_page itoa html)
page_of itoa html metrics_page = none
page_of itoa html proxied = none
page_of itoa html method_not_allowed =
    some (write_text ((codes "Allow", codes "GET, HEAD") ∷ []) 405 (codes "method not allowed"))
page_of itoa html (text status body) = some (write_text [] status body)

-- The page that the handler answers a request with, if it is one of its own.
abbrev pub own_page : (ℕ → Text) → Text → Server → List Bool → Text → Text → Option Page
own_page itoa html s checks method path = page_of itoa html (dispatch s checks method path)

abbrev pub status_of : Option Page → Option ℕ
status_of none = none
status_of (some p) = some p.status

abbrev pub IsGetOrHead : Text → Type 0
IsGetOrHead method = (method ≡ codes "GET") ⊎ (method ≡ codes "HEAD")

-- The scrape endpoint that the configuration disables.
abbrev pub IsHidden : Server → Text → Type 0
IsHidden s path = (s.metrics_disabled ≡ true) × (path ≡ codes "/metrics")

module _ (itoa : ℕ → Text) (html : Text) (s : Server) (checks : List Bool)
    (method path : Text) where
  abbrev page : Option Page
  page = own_page itoa html s checks method path

  ready_status :
      (cs : List Bool)
      → (status_of (page_of itoa html (ready cs)) ≡ some 200)
        ⊎ (status_of (page_of itoa html (ready cs)) ≡ some 503)
  unfolding ready page_of
  ready_status [] = inl refl
  ready_status (true ∷ cs) = ready_status cs
  ready_status (false ∷ cs) = inr refl

  status_of_405 :
      (status_of page ≡ some 405)
      ↔ (IsReserved s path × (¬ IsHidden s path) × (¬ IsGetOrHead method))
  unfolding dispatch page_of reserved
  status_of_405 = ground (
    arith,
    text_eq_iff path (codes "/"),
    text_eq_iff path (codes "/healthz"),
    text_eq_iff path (codes "/readyz"),
    text_eq_iff path (codes "/metrics"),
    text_eq_iff method (codes "GET"),
    text_eq_iff method (codes "HEAD"),
    ready_status checks,
  )

  ready-ne-demo : (cs : List Bool) → ready cs ≢ demo_page
  unfolding ready
  ready-ne-demo [] = λ e. cc
  ready-ne-demo (true ∷ cs) = ready-ne-demo cs
  ready-ne-demo (false ∷ cs) = λ e. cc

  reserved-ne-demo : reserved checks path ≢ demo_page
  unfolding reserved
  reserved-ne-demo = ground (arith, ready-ne-demo checks)

  status_of_404 : (status_of page ≡ some 404) ↔ IsHidden s path
  unfolding dispatch page_of reserved text_eq
  status_of_404 = ground (
    arith,
    text_eq_iff path (codes "/metrics"),
    text_eq_iff path (codes "/"),
    ready_status checks,
  )

  dispatch-demo_page :
      (dispatch s checks method path ≡ demo_page)
      ↔ ((s.demo_page ≡ true) × (path ≡ codes "/") × IsGetOrHead method)
  unfolding dispatch
  dispatch-demo_page = ground (
    arith,
    text_eq_iff path (codes "/"),
    text_eq_iff method (codes "GET"),
    text_eq_iff method (codes "HEAD"),
    reserved-ne-demo,
  )

-- Which requests the handler answers itself, and how: with the method guard's 405 exactly those of a
-- reserved path, but for disabled metrics, by another method than GET and HEAD; with a 404, whatever
-- the method, exactly those of disabled metrics; and with the demo page exactly a GET or HEAD of the
-- root where the page is on.
pub own_page_iff :
    (itoa : ℕ → Text) (html : Text) (s : Server) (checks : List Bool) (method path : Text)
    → let page = own_page itoa html s checks method path in
      ((status_of page ≡ some 405)
        ↔ (IsReserved s path × (¬ IsHidden s path) × (¬ IsGetOrHead method)))
      × ((status_of page ≡ some 404) ↔ IsHidden s path)
      × ((dispatch s checks method path ≡ demo_page)
          ↔ ((s.demo_page ≡ true) × (path ≡ codes "/") × IsGetOrHead method))
unfolding dispatch page_of reserved
own_page_iff itoa html s checks method path = (
  status_of_405 itoa html s checks method path,
  status_of_404 itoa html s checks method path,
  dispatch-demo_page itoa html s checks method path,
)
