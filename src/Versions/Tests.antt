-- ===== src/Versions/Tests.antt =====
-- A server with three versions, one of them a prerelease of the next major one.
use yasin_core.Prelude.{◌≡◌, not, ◌&&◌, ◌||◌, eqb, List, [], ◌∷◌, arith}
use yasin_core.Cron.{Text, codes}
use yasin_core.Versions.{Version, release_of, is_release, lower_version, in_caret_range, negotiate}
use yasin_core.Versions.Negotiation.{IsBest, negotiate-IsBest, in_caret_range-major}

abbrev offered : List Text
offered = codes "1.6.0" ∷ codes "1.10.2" ∷ codes "2.0.0-rc1" ∷ []

negotiate-IsBest_example : IsBest (codes ">=1.2") offered (negotiate (codes ">=1.2") offered)
negotiate-IsBest_example = negotiate-IsBest (codes ">=1.2") offered

abbrev candidate : Version
candidate = record (release_of 2 0 0) { prerelease = codes "rc1" }

in_caret_range-major_example : in_caret_range (release_of 1 6 0) candidate ≡ (
    (eqb candidate.major 1 && not (lower_version candidate (release_of 1 6 0)))
    || (eqb candidate.major 2
        && (eqb candidate.minor 0
            && (eqb candidate.patch 0 && eqb (is_release candidate.prerelease) 0))))
in_caret_range-major_example = in_caret_range-major (release_of 1 6 0) candidate (omega arith)
