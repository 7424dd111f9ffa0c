-- ===== src/Tests/Gui.antt =====
-- The controller of cmd/mpfpv-gui/controller.go behind its endpoints.
use mpfpv.Prelude.{ℕ, List, [], ◌∷◌, Option, none, some}
use mpfpv.Config.{Config}
use mpfpv.Lifecycle.{Outside, AllCancelled}
use mpfpv.Gui.{System, new_controller, disconnect}
use mpfpv.Gui.Endpoints.{Event, request, ends, connect_path, disconnect_path, config_path, run}
use mpfpv.Gui.Single.{IsSingle, serve_gui-IsSingle}
use mpfpv.Web.{Request, http_post}
use mpfpv.Tests.Config.{config}
use mpfpv.Tests.Windows.{network}

abbrev gui : System
gui = record { controller = new_controller none (5 ∷ []); runs = []; files = []; next = 0 }

abbrev decoded : List ℕ → Option Config
decoded body = some config

abbrev post : Request
post = record { method = http_post; body = [] }

-- Save, connect twice, and disconnect.
abbrev history : List (Outside × Event)
history =
    (network 7, request config_path post)
    ∷ (network 7, request connect_path post)
    ∷ (network 7, request connect_path post)
    ∷ (network 7, request disconnect_path post)
    ∷ (network 7, ends 0)
    ∷ []

serve_gui-IsSingle_example :
    IsSingle (run decoded gui history) × AllCancelled (disconnect (run decoded gui history)).runs
serve_gui-IsSingle_example = serve_gui-IsSingle decoded none (5 ∷ []) [] history
