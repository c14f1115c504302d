-- ===== src/Collector/Workers/Order/Tests.antt =====
-- Two workers, listed in either order.
use mathlib.Core.Quot
use braiins_pool_exporter.Base.{refl, ◌≡◌, ◌≢◌, [], ◌∷◌}
use braiins_pool_exporter.Base.Int.{pos}
use braiins_pool_exporter.Text.{Map, codes, ◌==◌}
use braiins_pool_exporter.Text.Laws.{is_not}
use braiins_pool_exporter.Braiins.Types.{Worker}
use braiins_pool_exporter.Braiins.Tests.{whole_numbers}
use braiins_pool_exporter.Collector.Tests.{as_it_is, btc, rig}
use braiins_pool_exporter.Collector.Workers.{build_worker_snapshot}
use braiins_pool_exporter.Collector.Workers.Order.{here, build_worker_snapshot_unordered}

abbrev listed : Map Worker
listed = (codes "b", rig) ∷ (codes "a", rig) ∷ []

abbrev other_way : Map Worker
other_way = (codes "a", rig) ∷ (codes "b", rig) ∷ []

two_names : codes "b" ≢ codes "a"
unfolding ◌==◌
two_names = is_not (codes "b") (codes "a") refl

build_worker_snapshot_unordered_example :
    build_worker_snapshot whole_numbers as_it_is btc
      (pos 7)
      (pos 2)
      ((btc, record { workers = listed }) ∷ [])
    ≡ build_worker_snapshot whole_numbers as_it_is btc
        (pos 7)
        (pos 2)
        ((btc, record { workers = other_way }) ∷ [])
build_worker_snapshot_unordered_example =
    build_worker_snapshot_unordered whole_numbers as_it_is btc btc (pos 7) (pos 2) [] listed
      other_way (Quot.sound (here two_names))
