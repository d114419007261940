-- ===== src/Service/Tests.antt =====
-- Requests to the service.
use takuhai.Base.{codes, none, refl, some, ◌≡◌}
use takuhai.Metrics.Routes.{route, service_routes}
use takuhai.Service.{served, served_by, serve_part, magnets}
use takuhai.Service.Labels.{endpoint_label, label_served}
use takuhai.Stdlib.Mux.{mux}

served_magnet : served (codes "/magnets/00") ≡ some magnets
unfolding served served_by serve_part mux
served_magnet = refl

served_nothing : (served (codes "/queue/other") ≡ none) × (served (codes "/magnets") ≡ none)
unfolding served served_by serve_part mux
served_nothing = (refl, refl)

label_served_example :
    route service_routes (codes "/magnets/00") ≡ endpoint_label (served (codes "/magnets/00"))
label_served_example = label_served service_routes (codes "/magnets/00") (λ e. (λ l. l, λ l. l))
