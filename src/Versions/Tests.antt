-- ===== src/Versions/Tests.antt =====
-- The choice of a version at concrete requests.
use py_sqlbridge.Prelude.{◌≤◌, ◌≡◌, refl, arith, true}
use py_sqlbridge.Versions.{contains, known_versions, negotiate, tds_71}
use py_sqlbridge.Versions.Negotiation.{negotiate_best}

-- A version between two known ones.
negotiate_best_example :
    (contains known_versions (negotiate 0x74000003) ≡ true)
    × (negotiate 0x74000003 ≤ 0x74000003)
    × (tds_71 ≤ negotiate 0x74000003)
negotiate_best_example = negotiate_best 0x74000003 tds_71 (omega arith) refl (omega arith)
