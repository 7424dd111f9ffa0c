-- ===== src/Tests/Queries.antt =====
-- The queries of internal/server/webapi.go on a server with two devices.
use mpfpv.Prelude.{◌≡◌, ◌+◌, [], ◌∷◌, length, nat_eq}
use mpfpv.Prelude.Map.{lookup}
use mpfpv.Prelude.Sorting.{IsSortedBy, find_by}
use mpfpv.Server.State.{Server}
use mpfpv.Server.Queries.{get_devices}
use mpfpv.Server.Queries.Devices.{id_of, listed_device, get_devices_lists}
use mpfpv.Tests.Relay.{relay, base}

abbrev office : Server
office = record relay { ip_pool = (4, base + 3) ∷ (1, base + 2) ∷ [] }

get_devices_lists_example :
    IsSortedBy id_of (get_devices 100 office)
    × (length (get_devices 100 office) ≡ length office.ip_pool)
    × (find_by id_of 1 (get_devices 100 office)
        ≡ listed_device 100 office 1 (lookup 1 office.ip_pool))
get_devices_lists_example = get_devices_lists 100 1 office
